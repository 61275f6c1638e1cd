-- ===== src/Now/Json.antt =====
-- What the server sends to the live page: the events of internal/api/stream.go, and the answer of
-- internal/api/now.go from the state of internal/derive/state.go.
use mathlib.Core.List.{Perm}
use vrclog_companion.Prelude.{String, ◌≡◌, Option, none, some, map}
use vrclog_companion.Event.{Event, Time}
use vrclog_companion.Derive.{State}
use vrclog_companion.Derive
use vrclog_companion.Client
use vrclog_companion.Client.{NowResponse, PlayerInfo, WorldInfo}

-- The same world, and the same players in some order.
abbrev pub IsSame : NowResponse → NowResponse → Type 0
IsSame n n' = (n.world ≡ n'.world) × Perm n.players n'.players

-- `iso` is the JSON form of a time, which encoding/json makes.
module _ (iso : Time → String) where
  -- The JSON of an event, which the stream sends: the fields that the browser's type names.
  abbrev pub event_json : Event → Client.Event
  event_json e = record {
    id = e.id;
    type = e.type;
    ts = iso e.ts;
    world_id = e.world_id;
    world_name = e.world_name;
    instance_id = e.instance_id;
    player_name = e.player_name;
    player_id = e.player_id;
  }

  abbrev pub player_json : Derive.PlayerInfo → PlayerInfo
  player_json p = record {
    player_name = p.player_name;
    player_id = p.player_id;
    joined_at = iso p.joined_at;
  }

  abbrev pub entry_json : String × Derive.PlayerInfo → PlayerInfo
  entry_json e = player_json e.1

  abbrev pub world_json : Option Derive.WorldInfo → Option WorldInfo
  world_json none = none
  world_json (some w) = some (record {
    world_id = w.world_id;
    world_name = w.world_name;
    instance_id = w.instance_id;
    joined_at = iso w.joined_at;
  })

  -- The answer of `/api/v1/now`, with the players as they came.
  abbrev pub now_json : State → NowResponse
  now_json s = record { world = world_json s.current_world; players = map entry_json s.players }

  -- What the server may answer: it goes over a map, so it lists the players in any order.
  abbrev pub IsNow : State → NowResponse → Type 0
  IsNow s n = IsSame n (now_json s)
