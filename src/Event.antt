-- ===== src/Event.antt =====
-- internal/event/event.go: the event that the packages share.
use vrclog_companion.Prelude.{ℕ, String, Option}

-- `time.Time`: nanoseconds since the zero time, so that `IsZero` is `== 0`.
abbrev pub Time : Type 0
Time = ℕ

abbrev pub type_player_join : String
type_player_join = "player_join"

abbrev pub type_player_left : String
type_player_left = "player_left"

abbrev pub type_world_join : String
type_world_join = "world_join"

-- `Event`. A nil `*string` is `none`, and `MetaJSON` is its bytes as a text, "" where it is empty.
pub record Event : Type 0 where
  pub id : ℕ
  pub ts : Time
  pub type : String
  pub player_name : Option String
  pub player_id : Option String
  pub world_id : Option String
  pub world_name : Option String
  pub instance_id : Option String
  pub meta_json : String
  pub dedupe_key : String
  pub ingested_at : Time
  pub schema_version : ℕ
