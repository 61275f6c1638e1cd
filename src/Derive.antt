-- ===== src/Derive.antt =====
-- internal/derive/state.go: the current world and the players in it, derived from the events.
-- A method returns the new state and its result. The mutex makes each method one step.
pub mod Players
pub mod Presence
use vrclog_companion.Prelude.{
  ℕ, String, ◌≡◌, Bool, not, Option, none, some, List, [], ◌∷◌, ◌++◌, map, length, keep, any,
  str_eq, is_empty, text_or_empty, if◌then◌else◌,
}
use vrclog_companion.Event.{Event, Time, type_player_join, type_player_left, type_world_join}

pub record WorldInfo : Type 0 where
  pub world_id : String
  pub world_name : String
  pub instance_id : String
  pub joined_at : Time

pub record PlayerInfo : Type 0 where
  pub player_name : String
  pub player_id : String
  pub joined_at : Time

pub data DerivedEventType : Type 0 where
  world_changed player_joined player_left : DerivedEventType

pub record DerivedEvent : Type 0 where
  pub type : DerivedEventType
  pub event : Event
  pub prev_world : Option WorldInfo

-- `players map[string]*PlayerInfo`, as an association list in the order of insertion.
pub record State : Type 0 where
  pub current_world : Option WorldInfo
  pub players : List (String × PlayerInfo)

unfoldable pub new : State
new = record { current_world = none; players = [] }

-- `_, exists := s.players[key]`.
abbrev pub exists_key : String → List (String × PlayerInfo) → Bool
exists_key key = any (λ e. str_eq e.0 key)

-- `delete(s.players, key)`.
abbrev pub delete_key : String → List (String × PlayerInfo) → List (String × PlayerInfo)
delete_key key = keep (λ e. not (str_eq e.0 key))

abbrev pub player_key : Event → String
player_key e =
    if is_empty (text_or_empty e.player_id)
    then text_or_empty e.player_name
    else text_or_empty e.player_id

unfoldable pub handle_world_join : State → Event → State × Option DerivedEvent
handle_world_join s e = (
  record {
    current_world = some (record {
      world_id = text_or_empty e.world_id;
      world_name = text_or_empty e.world_name;
      instance_id = text_or_empty e.instance_id;
      joined_at = e.ts;
    });
    players = [];
  },
  some (record { type = world_changed; event = e; prev_world = s.current_world }),
)

abbrev pub player_info : Event → PlayerInfo
player_info e = record {
  player_name = text_or_empty e.player_name;
  player_id = text_or_empty e.player_id;
  joined_at = e.ts;
}

unfoldable pub handle_player_join : State → Event → State × Option DerivedEvent
handle_player_join s e =
    let key = player_key e in
    if is_empty key then (s, none) else if exists_key key s.players then (s, none) else (
      record s { players = s.players ++ (key, player_info e) ∷ [] },
      some (record { type = player_joined; event = e; prev_world = none }),
    )

unfoldable pub handle_player_left : State → Event → State × Option DerivedEvent
handle_player_left s e =
    let key = player_key e in
    if is_empty key
    then (s, none)
    else if exists_key key s.players
    then (
      record s { players = delete_key key s.players },
      some (record { type = player_left; event = e; prev_world = none }),
    )
    else (s, none)

-- `Update` of a pointer; `none` is nil.
unfoldable pub update_event : State → Event → State × Option DerivedEvent
update_event s e =
    if str_eq e.type type_world_join
    then handle_world_join s e
    else if str_eq e.type type_player_join
    then handle_player_join s e
    else if str_eq e.type type_player_left
    then handle_player_left s e
    else (s, none)

unfoldable pub update : State → Option Event → State × Option DerivedEvent
unfolding update_event
update s none = (s, none)
update s (some e) = update_event s e

abbrev pub current_world : State → Option WorldInfo
current_world s = s.current_world

abbrev pub player_count : State → ℕ
player_count s = length s.players
