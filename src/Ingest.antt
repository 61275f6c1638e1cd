-- ===== src/Ingest.antt =====
-- internal/ingest: from the lines of VRChat's log to the store, and to what listens to new events.
-- `App` is what `onInsert` of cmd/vrclog/main.go reaches, beside the tables.
pub mod Table
pub mod Replay
pub mod Once
use vrclog_companion.Prelude.{
  ℕ, ◌+◌, ◌-◌, ◌*◌, ◌^◌, String, Bool, true, false, not, ◌&&◌, Option, none, some, List, [], ◌∷◌,
  ◌==◌, is_empty, if◌then◌else◌,
}
use vrclog_companion.Event.{Time}
use vrclog_companion.Event.{Event as StoreEvent}
use vrclog_companion.Store.{Formats, EventRow}
use vrclog_companion.Store.Insert.{
  Exec, exec_error, Inserted, inserted, duplicate, insert_failed, insert_event, FailureRow,
  insert_parse_failure,
}
use vrclog_companion.Derive.{State, update, DerivedEvent}
use vrclog_companion.Notify.Loop.{Setup, Notifier}
use vrclog_companion.Notify.Loop
use vrclog_companion.Api.Hub.{Hub}
use vrclog_companion.Api.Hub

pub record Event : Type 0 where
  pub type : String
  pub timestamp : Time
  pub player_name : String
  pub player_id : String
  pub world_id : String
  pub world_name : String
  pub instance_id : String
  pub raw_line : String

abbrev pub minute : ℕ
minute = 60 * 10 ^ 9

abbrev pub default_replay_rollback : ℕ
default_replay_rollback = 5 * minute

abbrev pub default_first_run_rollback : ℕ
default_first_run_rollback = 24 * 60 * minute

-- `CalculateReplaySinceWithClock`, for times later than the rollback.
unfoldable pub calculate_replay_since : Time → ℕ → Time → Time
calculate_replay_since last_event_time rollback now =
    if last_event_time == 0 then now - rollback else last_event_time - rollback

-- The rollback that main.go chooses, and the time that the source starts from.
unfoldable pub replay_since : Time → Time → Time
unfolding calculate_replay_since
replay_since last_event_time now =
    calculate_replay_since last_event_time
      (if last_event_time == 0 then default_first_run_rollback else default_replay_rollback) now

abbrev pub string_ptr_if_not_empty : String → Option String
string_ptr_if_not_empty s = if is_empty s then none else some s

-- `ToStoreEventWithClock`, with the hash and the clock.
abbrev pub to_store_event : (String → String) → Time → Event → StoreEvent
to_store_event sha256_hex now e = record {
  id = 0;
  ts = e.timestamp;
  type = e.type;
  player_name = string_ptr_if_not_empty e.player_name;
  player_id = string_ptr_if_not_empty e.player_id;
  world_id = string_ptr_if_not_empty e.world_id;
  world_name = string_ptr_if_not_empty e.world_name;
  instance_id = string_ptr_if_not_empty e.instance_id;
  meta_json = "";
  dedupe_key = sha256_hex e.raw_line;
  ingested_at = now;
  schema_version = 0;
}

-- `notifier` is nil where no webhook is configured.
pub record App : Type 0 where
  pub rows : List EventRow
  pub failures : List FailureRow
  pub state : State
  pub notifier : Option Notifier
  pub hub : Hub

abbrev pub enqueue_to : Setup → Option DerivedEvent → Option Notifier → Option Notifier
enqueue_to setup derived none = none
enqueue_to setup derived (some n) = some (Loop.enqueue setup derived n)

-- An error of the source: a line that cannot be parsed, with the error's text, or another.
pub data SourceError : Type 0 where
  parse_error : String → String → SourceError
  other_error : SourceError

-- What the goroutine receives: an event with the clock, an error with the clock, the close of either
-- channel, or the end of its context. The flag says that the database fails.
pub data Input : Type 0 where
  event_received : Bool → Time → Event → Input
  error_received : Bool → Time → SourceError → Input
  events_closed errs_closed cancelled : Input

-- How `Run` returns.
pub data Ended : Type 0 where
  sources_closed context_done : Ended

-- What the database's statements do, the formats, the hash, the notifier's configuration, and the case
-- that a `Publish` to a stopped hub takes.
pub record Env : Type 0 where
  pub formats : Formats
  pub exec : List EventRow → EventRow → Exec
  pub exec_failure : List FailureRow → FailureRow → Exec
  pub sha256_hex : String → String
  pub setup : Setup
  pub choice : Bool

module _ (env : Env) where
  -- The callback of `WithOnInsert` in main.go.
  unfoldable pub on_insert : StoreEvent → App → App
  on_insert e app =
      let (state, derived) = update app.state (some e) in
      record app {
        state = state;
        notifier = enqueue_to env.setup derived app.notifier;
        hub = Hub.publish env.choice (some e) app.hub;
      }

  abbrev pub after_insert : List EventRow × Inserted → App → App
  after_insert (rows, inserted e) app = on_insert e (record app { rows = rows })
  after_insert (rows, duplicate) app = record app { rows = rows }
  after_insert (rows, insert_failed x) app = record app { rows = rows }

  abbrev pub exec_unless : Bool → List EventRow → EventRow → Exec
  exec_unless fails rows row = if fails then exec_error else env.exec rows row

  unfoldable pub handle_event : Bool → Time → Event → App → App
  handle_event fails now e app =
      after_insert
        (insert_event env.formats (exec_unless fails) (to_store_event env.sha256_hex now e)
          app.rows)
        app

  unfoldable pub handle_error : Bool → Time → SourceError → App → App
  handle_error fails now other_error app = app
  handle_error fails now (parse_error line message) app = record app {
    failures =
        (insert_parse_failure env.sha256_hex
          (λ rows row. if fails then exec_error else env.exec_failure rows row)
          (env.formats.format_time now) line message app.failures).0;
  }

  -- The loop of `Run`, with the channels that are open. What a closed channel cannot give is passed
  -- over, and `none` is a goroutine that still waits.
  unfoldable pub run_loop : Bool → Bool → List Input → App → App × Option Ended
  run_loop events errs [] app = (app, none)
  run_loop events errs (event_received fails now e ∷ inputs) app =
      let app' = if events then handle_event fails now e app else app in
      run_loop events errs inputs app'
  run_loop events errs (error_received fails now e ∷ inputs) app =
      let app' = if errs then handle_error fails now e app else app in
      run_loop events errs inputs app'
  run_loop events errs (events_closed ∷ inputs) app = elim errs [
    | true ↦ run_loop false true inputs app
    | false ↦ (app, some sources_closed)
  ]
  run_loop events errs (errs_closed ∷ inputs) app = elim events [
    | true ↦ run_loop true false inputs app
    | false ↦ (app, some sources_closed)
  ]
  run_loop events errs (cancelled ∷ inputs) app = (app, some context_done)
