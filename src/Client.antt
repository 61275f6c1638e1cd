-- ===== src/Client.antt =====
-- web/src/api/client.ts: the shapes of the HTTP API, as the browser reads and writes them.
-- An optional field, or a nullable one that is only tested for truth, is an `Option`. `number` is ℕ for ids and counters that the server
-- never makes negative, and ℤ for what a user or a file sets.
pub mod Requests
use vrclog_companion.Prelude.{ℕ, ℤ, String, Bool, Option, List}

pub record WorldInfo : Type 0 where
  pub world_id : String
  pub world_name : String
  pub instance_id : String
  pub joined_at : String

pub record PlayerInfo : Type 0 where
  pub player_name : String
  pub player_id : String
  pub joined_at : String

pub record NowResponse : Type 0 where
  pub world : Option WorldInfo
  pub players : List PlayerInfo

pub record Event : Type 0 where
  pub id : ℕ
  pub type : String
  pub ts : String
  pub world_id : Option String
  pub world_name : Option String
  pub instance_id : Option String
  pub player_name : Option String
  pub player_id : Option String

-- A field of a parsed JSON object: absent, `null`, or a value. `x !== null` tells the first from
-- the second.
pub data Nullable {ℓ} (A : Type ℓ) : Type ℓ where
  undefined null : Nullable A
  value : A → Nullable A

pub record EventsResponse : Type 0 where
  pub items : List Event
  pub next_cursor : Nullable String

pub record ConfigResponse : Type 0 where
  pub port : ℤ
  pub lan_enabled : Bool
  pub discord_batch_sec : ℤ
  pub notify_on_join : Bool
  pub notify_on_leave : Bool
  pub notify_on_world_join : Bool
  pub discord_webhook_configured : Bool
  pub log_path : String
  pub basic_auth_username : Option String
  pub basic_auth_configured : Bool

pub record ConfigUpdateRequest : Type 0 where
  pub port : Option ℤ
  pub lan_enabled : Option Bool
  pub discord_batch_sec : Option ℤ
  pub notify_on_join : Option Bool
  pub notify_on_leave : Option Bool
  pub notify_on_world_join : Option Bool
  pub discord_webhook_url : Option String
  pub log_path : Option String
  pub basic_auth_password : Option String

pub record ConfigUpdateResponse : Type 0 where
  pub success : Bool
  pub restart_required : Bool
  pub new_port : Option ℤ

pub record TokenResponse : Type 0 where
  pub token : String
  pub expires_in : ℕ

pub record StatsResponse : Type 0 where
  pub today_joins : ℕ
  pub today_leaves : ℕ
  pub today_world_changes : ℕ
  pub recent_players : List String
  pub last_event_at : Option String
