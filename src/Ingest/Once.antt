-- ===== src/Ingest/Once.antt =====
-- internal/ingest: what is inserted is told to the state, the notifier and the hub, and nothing else is.
use mathlib.Core.List.{append_assoc, append-nil}
use vrclog_companion.Prelude.{
  ◌≡◌, refl, sym, ap, ◌∙◌, Bool, true, false, Option, none, some, List, [], ◌∷◌, ◌++◌, map, inl,
  inr,
}
use vrclog_companion.Event.{Time}
use vrclog_companion.Event.{Event as StoreEvent}
use vrclog_companion.Store.{event_to_row}
use vrclog_companion.Store.Insert.{FailureRow}
use vrclog_companion.Derive.{State, DerivedEvent, update}
use vrclog_companion.Notify.Loop.{Setup, Notifier}
use vrclog_companion.Notify.Loop
use vrclog_companion.Api.Hub.{Hub}
use vrclog_companion.Api.Hub
use vrclog_companion.Ingest.{
  Event, App, Input, event_received, error_received, events_closed, errs_closed, cancelled, Env,
  on_insert, enqueue_to, handle_event, handle_error, run_loop, parse_error, other_error,
}
use vrclog_companion.Ingest.Table.{
  IsTable, row_of, fed, fed_rows, feed_all, feed_all-failures, handle_cases, with_id, IsUnique,
  append-IsUnique,
}

module _ (env : Env) (t : IsTable env.exec) where
  abbrev feed : List StoreEvent → App → App
  feed = feed_all env

  -- The app after some new events, but for the failures.
  record IsFed (app after : App) : Type 0 where
    new : List StoreEvent
    same : after ≡ record (feed new app) { failures = after.failures }
    unique : IsUnique after.rows

  handle-IsUnique :
      (fails : Bool) (now : Time) (e : Event) (app : App)
      → IsUnique app.rows
      → IsUnique (handle_event env fails now e app).rows
  unfolding event_to_row on_insert
  handle-IsUnique fails now e app u = elim (handle_cases env t fails now e app) [
    | inl same ↦ rw same u
    | inr (id, q, fresh) ↦
        rw q (append-IsUnique app.rows (row_of env.formats (with_id env now e id)) u fresh)
  ]

  step-IsFed :
      (fails : Bool) (now : Time) (e : Event) (app after : App)
      → IsFed (handle_event env fails now e app) after
      → IsFed app after
  step-IsFed fails now e app after v = elim (handle_cases env t fails now e app) [
    | inl same ↦ record {
      new = v.new;
      same = v.same ∙ ap (λ a. record (feed v.new a) { failures = after.failures }) same;
      unique = v.unique;
    }
    | inr (id, q, fresh) ↦ record {
      new = with_id env now e id ∷ v.new;
      same = v.same ∙ ap (λ a. record (feed v.new a) { failures = after.failures }) q;
      unique = v.unique;
    }
  ]

  failed-IsFed :
      (failures : List FailureRow) (app after : App)
      → IsFed (record app { failures = failures }) after
      → IsFed app after
  failed-IsFed failures app after v = record {
    new = v.new;
    same =
        v.same
        ∙ ap {A = App} (λ a. record a { failures = after.failures })
            (feed_all-failures env v.new failures app);
    unique = v.unique;
  }

  loop_feeds :
      (events errs : Bool) (inputs : List Input) (app : App)
      → IsUnique app.rows
      → IsFed app (run_loop env events errs inputs app).0
  unfolding run_loop handle_error
  loop_feeds events errs [] app u = record { new = []; same = refl; unique = u }
  loop_feeds true errs (event_received fails now e ∷ inputs) app u =
      step-IsFed fails now e app _
        (loop_feeds true errs inputs _ (handle-IsUnique fails now e app u))
  loop_feeds false errs (event_received fails now e ∷ inputs) app u =
      loop_feeds false errs inputs app u
  loop_feeds events true (error_received fails now other_error ∷ inputs) app u =
      loop_feeds events true inputs app u
  loop_feeds events true (error_received fails now (parse_error line message) ∷ inputs) app u =
      failed-IsFed _ app _ (loop_feeds events true inputs _ u)
  loop_feeds events false (error_received fails now e ∷ inputs) app u =
      loop_feeds events false inputs app u
  loop_feeds events true (events_closed ∷ inputs) app u = loop_feeds false true inputs app u
  loop_feeds events false (events_closed ∷ inputs) app u = record {
    new = [];
    same = refl;
    unique = u;
  }
  loop_feeds true errs (errs_closed ∷ inputs) app u = loop_feeds true false inputs app u
  loop_feeds false errs (errs_closed ∷ inputs) app u = record { new = []; same = refl; unique = u }
  loop_feeds events errs (cancelled ∷ inputs) app u = record { new = []; same = refl; unique = u }

  feed_rows :
      (new : List StoreEvent) (app : App)
      → (feed new app).rows ≡ app.rows ++ map (row_of env.formats) new
  feed_rows [] app = sym (append-nil app.rows)
  feed_rows (e ∷ new) app =
      feed_rows new (fed env e app)
      ∙ ap (λ r. r ++ map (row_of env.formats) new) (fed_rows env e app)
      ∙ append_assoc app.rows _ _

-- What the derived state, the notifier and the hub become when they are told of events, one after the
-- other; the notifier is told what the state reports.
abbrev pub states : List StoreEvent → State → State
states [] s = s
states (e ∷ new) s = states new (update s (some e)).0

abbrev pub reports : List StoreEvent → State → List (Option DerivedEvent)
reports [] s = []
reports (e ∷ new) s = (update s (some e)).1 ∷ reports new (update s (some e)).0

abbrev pub notified : Setup → List (Option DerivedEvent) → Option Notifier → Option Notifier
notified setup [] n = n
notified setup (d ∷ ds) none = none
notified setup (d ∷ ds) (some n) = notified setup ds (some (Loop.enqueue setup d n))

abbrev pub published : Bool → List StoreEvent → Hub → Hub
published choice [] h = h
published choice (e ∷ new) h = published choice new (Hub.publish choice (some e) h)

notified-none : (setup : Setup) (ds : List (Option DerivedEvent)) → notified setup ds none ≡ none
notified-none setup [] = refl
notified-none setup (d ∷ ds) = refl

notified-enqueue_to :
    (setup : Setup) (d : Option DerivedEvent) (ds : List (Option DerivedEvent))
    (n : Option Notifier)
    → notified setup ds (enqueue_to setup d n) ≡ notified setup (d ∷ ds) n
notified-enqueue_to setup d ds none = notified-none setup ds
notified-enqueue_to setup d ds (some n) = refl

-- Each part of the app is told the events that are fed to it.
feed_all-parts :
    (env : Env) (new : List StoreEvent) (app : App)
    → ((feed_all env new app).state ≡ states new app.state)
      × ((feed_all env new app).notifier ≡ notified env.setup (reports new app.state) app.notifier)
      × ((feed_all env new app).hub ≡ published env.choice new app.hub)
unfolding on_insert
feed_all-parts env [] app = (refl, refl, refl)
feed_all-parts env (e ∷ new) app =
    let (s, n, h) = feed_all-parts env new (fed env e app) in
    (s, n ∙ notified-enqueue_to env.setup _ (reports new _) app.notifier, h)

-- Whatever the goroutine receives, failures of the database included, when the database keeps its keys
-- unique and they are unique to begin with: the new rows are those of a list of events, and the keys
-- are unique still; the derived state and the hub have been told exactly these events, each once, in
-- the order of their rows, and the notifier what the state reports of them.
pub run_loop-feeds :
    (env : Env) (inputs : List Input) (app : App)
    → IsTable env.exec
    → IsUnique app.rows
    → let after = (run_loop env true true inputs app).0 in
      (new : List StoreEvent) × (after.rows ≡ app.rows ++ map (row_of env.formats) new)
      × IsUnique after.rows
      × (after.state ≡ states new app.state)
      × (after.notifier ≡ notified env.setup (reports new app.state) app.notifier)
      × (after.hub ≡ published env.choice new app.hub)
run_loop-feeds env inputs app t u =
    let v = loop_feeds env t true true inputs app u in
    let (s, n, h) = feed_all-parts env v.new app in
    (
      v.new,
      ap (λ a. a.rows) v.same ∙ feed_rows env t v.new app,
      v.unique,
      ap (λ a. a.state) v.same ∙ s,
      ap (λ a. a.notifier) v.same ∙ n,
      ap (λ a. a.hub) v.same ∙ h,
    )
