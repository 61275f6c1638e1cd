-- ===== src/Tests/Ingestion.antt =====
-- From the log to the hub's streams (internal/ingest, internal/api): runs and the theorems on them.
use vrclog_companion.Prelude.{
  ◌≡◌, refl, pos, String, true, false, some, none, List, [], ◌∷◌, ◌++◌, inl, inr, map, take, keep,
  arith, if◌then◌else◌, text_or_empty, Option,
}
use vrclog_companion.Event.{Event as StoreEvent}
use vrclog_companion.Api.Events.{asc}
use vrclog_companion.Derive.{new}
use vrclog_companion.Store.{EventRow, encode_cursor}
use vrclog_companion.Store.Order.{past}
use vrclog_companion.Store.Insert.{Exec, no_row, one_row, has_key}
use vrclog_companion.Notify.Loop.{initial, new_setup, Setup}
use vrclog_companion.Api.Hub.{
  Hub, new_hub, subscribes, publishes, broadcasts, takes, unsubscribes, stops,
}
use vrclog_companion.Api.Hub
use vrclog_companion.Api.Hub.Delivery.{IsSafe, run-IsSafe}
use vrclog_companion.Api.Stream.{replay, write_sse_events}
use vrclog_companion.Api.Stream.Replay.{reconnect-replay}
use vrclog_companion.Sse.{
  Action, Source, effect, token_fetched, resync_fetched, opened, message, failed, fired, cleanup,
  connect, token_for_connect, token_for_refresh, open_source, on_open, on_message, on_error,
  run_effect,
}
use vrclog_companion.Sse
use vrclog_companion.Ingest.{Event, App, Env, Input, event_received, events_closed, run_loop}
use vrclog_companion.Ingest.Table.{IsTable, IsUnique, row_of}
use vrclog_companion.Ingest.Replay.{events_of, replay_again}
use vrclog_companion.Ingest.Once.{states, reports, notified, published, run_loop-feeds}
use vrclog_companion.Tests.Records.{
  strokes, unary, unary-IsFormats, shorter, stored, table, table-IsDatabase, joined,
}

program : Unit {0}
unfolding cleanup connect token_for_connect token_for_refresh open_source on_open on_message
    on_error run_effect Sse.step Sse.run encode_cursor
program = tt

abbrev broadcasting : List Hub.Action
broadcasting =
    subscribes
    ∷ publishes false (some joined)
    ∷ broadcasts
    ∷ subscribes
    ∷ publishes false (some joined)
    ∷ broadcasts
    ∷ takes 0
    ∷ unsubscribes 1
    ∷ stops
    ∷ []

run-IsSafe_example : IsSafe (Hub.run (new_hub (pos 1)) broadcasting)
run-IsSafe_example = run-IsSafe (pos 1) broadcasting

-- Connect, read the second stored event, fail, and reconnect up to the resync.
abbrev session : List Action
session =
    effect true
    ∷ token_fetched 1 (some "tok")
    ∷ resync_fetched 2 none
    ∷ opened 3
    ∷ message 3 "II|II" none
    ∷ failed 3
    ∷ fired 5
    ∷ token_fetched 6 (some "tok2")
    ∷ []

abbrev marshal_name : StoreEvent → Option String
marshal_name e = e.player_name

reconnect-replay_example :
    (source : Source) × ((Sse.step (Sse.run Sse.initial session) (resync_fetched 7 none)).sources
      ≡ (Sse.run Sse.initial session).sources ++ source ∷ [])
    × (replay unary marshal_name table "" (text_or_empty source.url_last_event_id)
        ≡ write_sse_events unary marshal_name (take 500 (keep (past asc 2 2) (stored asc))))
unfolding program
reconnect-replay_example =
    reconnect-replay unary shorter stored table marshal_name session 7 none 2 2 unary-IsFormats
      table-IsDatabase refl refl (omega arith) (omega arith)

abbrev insert_unless : List EventRow → EventRow → Exec
insert_unless rows row = if has_key row.dedupe_key rows then no_row else one_row 7

insert_unless-IsTable : IsTable insert_unless
insert_unless-IsTable = record {
  conflict = λ rows row h. ground (arith, h);
  fresh = λ rows row h. (7, ground (arith, h));
}

abbrev setup : Setup
setup =
    new_setup (pos 3)
      (record { notify_on_join = true; notify_on_leave = true; notify_on_world_join = true })
      (pos 2) strokes strokes

abbrev env : Env
env = record {
  formats = unary;
  exec = insert_unless;
  exec_failure = λ rows row. one_row 1;
  sha256_hex = λ s. s;
  setup = setup;
  choice = true;
}

abbrev app : App
app = record {
  rows = [];
  failures = [];
  state = new;
  notifier = some initial;
  hub = new_hub (pos 16);
}

abbrev line : String → Event
line raw = record {
  type = "player_join";
  timestamp = 3;
  player_name = "Alice";
  player_id = "";
  world_id = "";
  world_name = "";
  instance_id = "";
  raw_line = raw;
}

replay_again_example :
    run_loop env true true
      (events_of ((5, line "a") ∷ (6, line "b") ∷ [])
        ++ (events_of ((8, line "b") ∷ []) ++ (events_closed ∷ [])))
      app
    ≡ run_loop env true true
        (events_of ((5, line "a") ∷ (6, line "b") ∷ []) ++ (events_closed ∷ []))
        app
replay_again_example =
    replay_again env ((5, line "a") ∷ (6, line "b") ∷ []) ((8, line "b") ∷ []) (events_closed ∷ [])
      app insert_unless-IsTable (refl, (refl, tt)) (refl, tt) (inr (inl refl), tt)

abbrev inputs : List Input
inputs = event_received true 5 (line "a") ∷ event_received false 6 (line "a") ∷ events_closed ∷ []

run_loop-feeds_example :
    (new : List StoreEvent) × ((run_loop env true true inputs app).0.rows
      ≡ [] ++ map (row_of unary) new)
    × IsUnique (run_loop env true true inputs app).0.rows
    × ((run_loop env true true inputs app).0.state ≡ states new app.state)
    × ((run_loop env true true inputs app).0.notifier
        ≡ notified setup (reports new app.state) app.notifier)
    × ((run_loop env true true inputs app).0.hub ≡ published true new app.hub)
run_loop-feeds_example = run_loop-feeds env inputs app insert_unless-IsTable tt
