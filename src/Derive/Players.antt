-- ===== src/Derive/Players.antt =====
-- The player list of internal/derive/state.go: its invariant, and what each report of `Update` means.
use vrclog_companion.Prelude.{
  String, ◌≡◌, refl, ◌+◌, true, false, not, Option, none, some, List, [], ◌∷◌, ◌++◌, length, All,
  All-append_last, All-keep, arith, is_empty, str_eq, length-append, if◌then◌else◌,
}
use text.Mathlib.TextEquality.{eq_iff}
use vrclog_companion.Event.{Event}
use vrclog_companion.Derive.{
  State, PlayerInfo, DerivedEvent, world_changed, player_joined, player_left, exists_key,
  delete_key, player_key, player_info, update_event, update, player_count, new, handle_world_join,
  handle_player_join, handle_player_left,
}

abbrev pub info_key : PlayerInfo → String
info_key p = if is_empty p.player_id then p.player_name else p.player_id

-- No key occurs twice.
abbrev pub Distinct : List (String × PlayerInfo) → Type 0
Distinct [] = Unit
Distinct (e ∷ l) = (exists_key e.0 l ≡ false) × Distinct l

abbrev pub IsKeyed : String × PlayerInfo → Type 0
IsKeyed e = (is_empty e.0 ≡ false) × (info_key e.1 ≡ e.0)

pub record IsValid (s : State) : Type 0 where
  pub distinct : Distinct s.players
  pub keyed : All IsKeyed s.players

pub exists_key-append :
    (k : String) (l : List (String × PlayerInfo)) (e : String × PlayerInfo)
    → exists_key k (l ++ e ∷ []) ≡ (if exists_key k l then true else str_eq e.0 k)
exists_key-append k [] e = ground arith
exists_key-append k (x ∷ l) e = ground (arith, exists_key-append k l e)

pub exists_key-delete_key :
    (k j : String) (l : List (String × PlayerInfo))
    → exists_key k (delete_key j l) ≡ (if str_eq j k then false else exists_key k l)
exists_key-delete_key k j [] = ground arith
exists_key-delete_key k j (e ∷ l) =
    ground (arith, exists_key-delete_key k j l, eq_iff e.0 j, eq_iff e.0 k, eq_iff j k)

Distinct-append :
    (l : List (String × PlayerInfo)) (e : String × PlayerInfo)
    → Distinct l
    → exists_key e.0 l ≡ false
    → Distinct (l ++ e ∷ [])
Distinct-append [] e d h = (refl, tt)
Distinct-append (x ∷ l) e d h = (
  ground (arith, exists_key-append x.0 l e, eq_iff e.0 x.0, eq_iff x.0 e.0),
  Distinct-append l e d.1 (ground arith),
)

Distinct-delete_key :
    (j : String) (l : List (String × PlayerInfo)) → Distinct l → Distinct (delete_key j l)
Distinct-delete_key j [] d = d
Distinct-delete_key j (e ∷ l) d =
    ground (arith, exists_key-delete_key e.0 j l, Distinct-delete_key j l d.1)

-- Deleting a key that is not there changes nothing.
pub delete_key_absent :
    (j : String) (l : List (String × PlayerInfo)) → exists_key j l ≡ false → delete_key j l ≡ l
delete_key_absent j [] h = refl
delete_key_absent j (e ∷ l) h = ground (arith, delete_key_absent j l)

pub length-delete_key :
    (j : String) (l : List (String × PlayerInfo))
    → Distinct l
    → exists_key j l ≡ true
    → length (delete_key j l) + 1 ≡ length l
length-delete_key j [] d h = absurd (ground arith)
length-delete_key j (e ∷ l) d h =
    ground (arith, length-delete_key j l d.1, delete_key_absent j l, eq_iff e.0 j)

pub new-IsValid : IsValid new
unfolding new
new-IsValid = record { distinct = tt; keyed = tt }

player_info-IsKeyed :
    (e : Event) → is_empty (player_key e) ≡ false → IsKeyed (player_key e, player_info e)
player_info-IsKeyed e h = (h, ground arith)

handle_player_join-IsValid :
    (s : State) (e : Event) → IsValid s → IsValid (handle_player_join s e).0
unfolding handle_player_join
handle_player_join-IsValid s e v =
    let entry : String × PlayerInfo = (player_key e, player_info e) in
    ground (
      arith,
      λ (h : exists_key entry.0 s.players ≡ false). Distinct-append s.players entry v.distinct h,
      λ (h : is_empty (player_key e) ≡ false).
          All-append_last IsKeyed s.players entry v.keyed (player_info-IsKeyed e h),
    )

handle_player_left-IsValid :
    (s : State) (e : Event) → IsValid s → IsValid (handle_player_left s e).0
unfolding handle_player_left
handle_player_left-IsValid s e v = ground (
  arith,
  Distinct-delete_key (player_key e) s.players v.distinct,
  All-keep IsKeyed (λ x. not (str_eq x.0 (player_key e))) s.players v.keyed,
)

-- Every event keeps the invariant: each player is stored once, under its own key, which is not empty.
pub update-IsValid : (s : State) (o : Option Event) → IsValid s → IsValid (update s o).0
unfolding update update_event handle_world_join
update-IsValid s none v = v
update-IsValid s (some e) v =
    ground (arith, handle_player_join-IsValid s e v, handle_player_left-IsValid s e v)

-- What a report of `Update` says of the states before and after it.
abbrev pub Reports : State → State → Option DerivedEvent → Type 0
Reports s t none = t ≡ s
Reports s t (some d) = elim d.type [
  | world_changed ↦ (t.players ≡ []) × (d.prev_world ≡ s.current_world)
  | player_joined ↦ (t.current_world ≡ s.current_world) × (player_count t ≡ player_count s + 1)
  | player_left ↦ (t.current_world ≡ s.current_world) × (player_count t + 1 ≡ player_count s)
]

-- On a valid state the answer of `Update` tells what it did: no answer and the state is the same; a
-- world change, and no player is left and the answer holds the old world; a join, and there is one
-- player more in the same world; a leave, and there is one player less in the same world.
pub update-Reports :
    (s : State) (o : Option Event) → IsValid s → Reports s (update s o).0 (update s o).1
unfolding update update_event handle_world_join handle_player_join handle_player_left
update-Reports s none v = refl
update-Reports s (some e) v = ground (
  arith,
  length-append s.players ((player_key e, player_info e) ∷ []),
  length-delete_key (player_key e) s.players v.distinct,
)
