-- ===== src/Notify/Queue.antt =====
-- internal/notify/notifier.go: which events are notified, and how the queue is coalesced.
use Prim.Native.String.{◌++◌ as append}
use vrclog_companion.Prelude.{
  ℕ, zero, suc, String, Bool, Option, none, some, List, [], ◌∷◌, ◌++◌, length, leb, str_eq,
  is_empty, text_or_empty, if◌then◌else◌,
}
use vrclog_companion.Event.{Event}
use vrclog_companion.Derive.{
  DerivedEvent, DerivedEventType, world_changed, player_joined, player_left,
}

pub record FilterConfig : Type 0 where
  pub notify_on_join : Bool
  pub notify_on_leave : Bool
  pub notify_on_world_join : Bool

unfoldable pub should_notify : FilterConfig → DerivedEventType → Bool
should_notify filter player_joined = filter.notify_on_join
should_notify filter player_left = filter.notify_on_leave
should_notify filter world_changed = filter.notify_on_world_join

abbrev pub name_key : Option String → String
name_key none = ""
name_key (some name) = append "player:" name

abbrev pub player_key : Event → String
player_key e =
    let id = text_or_empty e.player_id in
    if is_empty id then name_key e.player_name else append "player:" id

-- "" is no key. `ev.Event` is never nil: `derive.Update` sets it.
unfoldable pub event_key : DerivedEvent → String
event_key ev = elim ev.type [
  | world_changed ↦ "world"
  | player_joined ↦ player_key ev.event
  | player_left ↦ player_key ev.event
]

-- `idx, exists := seen[key]`, and `seen[key] = idx` for a new key.
abbrev pub find_index : String → List (String × ℕ) → Option ℕ
find_index key [] = none
find_index key ((k, idx) ∷ seen) = if str_eq k key then some idx else find_index key seen

-- `result[idx] = ev`.
abbrev pub set : List DerivedEvent → ℕ → DerivedEvent → List DerivedEvent
set [] idx ev = []
set (x ∷ result) zero ev = ev ∷ result
set (x ∷ result) (suc idx) ev = x ∷ set result idx ev

-- One round of the loop over the queue.
unfoldable pub coalesce_one :
    DerivedEvent → List (String × ℕ) → List DerivedEvent → List (String × ℕ) × List DerivedEvent
coalesce_one ev seen result =
    let key = event_key ev in
    if is_empty key then (seen, result ++ ev ∷ []) else elim (find_index key seen) [
      | some idx ↦ (seen, set result idx ev)
      | none ↦ ((key, length result) ∷ seen, result ++ ev ∷ [])
    ]

unfoldable pub coalesce_loop :
    List DerivedEvent → List (String × ℕ) → List DerivedEvent → List DerivedEvent
coalesce_loop [] seen result = result
coalesce_loop (ev ∷ queue) seen result =
    let (seen', result') = coalesce_one ev seen result in coalesce_loop queue seen' result'

unfoldable pub coalesce_queue : List DerivedEvent → List DerivedEvent
coalesce_queue queue = if leb (length queue) 1 then queue else coalesce_loop queue [] []
