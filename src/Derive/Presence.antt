-- ===== src/Derive/Presence.antt =====
-- internal/derive/state.go against an abstract account of who is in the instance.
use mathlib.Core.List.{foldl}
use text.Mathlib.TextEquality.{eq_iff}
use vrclog_companion.Prelude.{
  String, ◌≡◌, refl, ◌∙◌, Bool, true, false, none, some, List, [], ◌∷◌, ap, arith, is_empty, str_eq,
  if◌then◌else◌,
}
use vrclog_companion.Event.{Event, type_player_join, type_player_left, type_world_join}
use vrclog_companion.Derive.{
  State, exists_key, player_key, player_info, update, update_event, new, handle_world_join,
  handle_player_join, handle_player_left,
}
use vrclog_companion.Derive.Players.{exists_key-append, exists_key-delete_key}

-- The state after a log: `Update` on each event in turn, from the empty state.
unfoldable pub replay : State → List Event → State
replay s [] = s
replay s (e ∷ es) = replay (update s (some e)).0 es

-- One person followed through the log: a world join clears, a join of the key sets, a leave resets.
abbrev pub is_in : String → Bool → Event → Bool
is_in key here e =
    if str_eq e.type type_world_join
    then false
    else if str_eq e.type type_player_join
    then (if str_eq (player_key e) key then true else here)
    else if str_eq e.type type_player_left
    then (if str_eq (player_key e) key then false else here)
    else here

exists_key-update :
    (key : String) (s : State) (e : Event)
    → is_empty key ≡ false
    → exists_key key (update s (some e)).0.players ≡ is_in key (exists_key key s.players) e
unfolding update update_event handle_world_join handle_player_join handle_player_left
exists_key-update key s e h = ground (
  arith,
  exists_key-append key s.players (player_key e, player_info e),
  exists_key-delete_key key (player_key e) s.players,
  eq_iff (player_key e) key,
)

exists_key-replay_from :
    (key : String) (s : State) (es : List Event)
    → is_empty key ≡ false
    → exists_key key (replay s es).players ≡ foldl (is_in key) (exists_key key s.players) es
unfolding replay
exists_key-replay_from key s [] h = refl
exists_key-replay_from key s (e ∷ es) h =
    exists_key-replay_from key (update s (some e)).0 es h
    ∙ ap (λ b. foldl (is_in key) b es) (exists_key-update key s e h)

-- After any log, a key that is not empty is in the player map exactly when the abstract account of
-- that one key says so: the last event about it since the last world join is a join.
pub exists_key-replay :
    (key : String) (es : List Event)
    → is_empty key ≡ false
    → exists_key key (replay new es).players ≡ foldl (is_in key) false es
unfolding new
exists_key-replay key es h =
    exists_key-replay_from key (record { current_world = none; players = [] }) es h
