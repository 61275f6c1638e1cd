-- ===== src/Tests/Players.antt =====
-- The player lists of the server (internal/derive/state.go) and of the live page
-- (web/src/pages/Now.tsx), on an evening with two worlds.
use mathlib.Core.List.{foldl}
use mathlib.Core.List.Perm
use vrclog_companion.Prelude.{String, ◌≡◌, refl, none, some, List, [], ◌∷◌, false, ◌+◌}
use vrclog_companion.Event.{Event, Time}
use vrclog_companion.Derive.{
  State, new, update, update_event, handle_world_join, handle_player_join, handle_player_left,
  exists_key, player_count,
}
use vrclog_companion.Derive.Players.{IsValid, new-IsValid, update-IsValid}
use vrclog_companion.Derive.Presence.{replay, is_in, exists_key-replay}
use vrclog_companion.Client.{NowResponse}
use vrclog_companion.Now.{apply_event}
use vrclog_companion.Now.Json.{now_json, IsNow, event_json}
use vrclog_companion.Now.Mirror.{stream-replay, namesake_hidden}

abbrev someone : Event
someone = record {
  id = 1;
  ts = 10;
  type = "player_join";
  player_name = some "Alice";
  player_id = some "usr_a";
  world_id = none;
  world_name = none;
  instance_id = none;
  meta_json = "";
  dedupe_key = "k1";
  ingested_at = 11;
  schema_version = 1;
}

abbrev other : Event
other = record someone { id = 2; player_name = some "Bob"; player_id = some "usr_b" }

abbrev nameless : Event
nameless = record someone { id = 3; player_id = none }

abbrev leaves : Event
leaves = record someone { id = 4; type = "player_left" }

abbrev travels : Event
travels = record someone {
  id = 5;
  type = "world_join";
  player_name = none;
  player_id = none;
  world_id = some "wrld_1";
  world_name = some "Pub";
}

abbrev evening : List Event
evening = someone ∷ other ∷ leaves ∷ []

two_then_one : exists_key "usr_a" (replay new evening).players ≡ false
unfolding replay new update update_event handle_world_join handle_player_join handle_player_left
two_then_one = refl

exists_key-replay_example :
    exists_key "usr_b" (replay new evening).players ≡ foldl (is_in "usr_b") false evening
exists_key-replay_example = exists_key-replay "usr_b" evening refl

abbrev iso : Time → String
iso t = "2024"

abbrev two : State
two = replay new (someone ∷ other ∷ [])

-- The server goes over its map the other way round.
abbrev answered : NowResponse
answered = record {
  world = none;
  players =
      record { player_name = "Bob"; player_id = "usr_b"; joined_at = "2024" }
      ∷ record { player_name = "Alice"; player_id = "usr_a"; joined_at = "2024" }
      ∷ [];
}

answered-IsNow : IsNow iso two answered
unfolding two_then_one
answered-IsNow = (refl, Perm.swap _ _ [])

two-IsValid : IsValid two
unfolding two_then_one
two-IsValid =
    update-IsValid (update new (some someone)).0 (some other)
      (update-IsValid new (some someone) new-IsValid)

-- One leaves, the other travels, and somebody joins there.
abbrev later : List Event
later = leaves ∷ travels ∷ other ∷ []

stream-replay_example :
    IsNow iso (replay two later) (foldl (λ n e. apply_event n (event_json iso e)) answered later)
unfolding two_then_one
stream-replay_example =
    stream-replay iso two answered later two-IsValid (refl, (refl, tt)) answered-IsNow
      (refl, (refl, (refl, tt)))

-- Somebody without an id is there, and a namesake with an id joins.
abbrev with_nameless : State
with_nameless = record {
  current_world = none;
  players = ("Alice", record { player_name = "Alice"; player_id = ""; joined_at = 10 }) ∷ [];
}

namesake_hidden_example :
    (apply_event (now_json iso with_nameless) (event_json iso someone) ≡ now_json iso with_nameless)
    × (player_count (update with_nameless (some someone)).0 ≡ player_count with_nameless + 1)
namesake_hidden_example =
    namesake_hidden iso with_nameless (now_json iso with_nameless) someone (refl, Perm.rfl) refl
      refl refl refl
