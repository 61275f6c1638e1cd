-- ===== src/Tests/Notices.antt =====
-- The notifier (internal/notify): batches, the queue, and runs of the goroutine.
use vrclog_companion.Prelude.{
  ℕ, ◌≡◌, ◌≢◌, ◌≤◌, refl, pos, true, some, none, List, [], ◌∷◌, ◌++◌, length, arith, All, ◌⊎◌, map,
}
use vrclog_companion.Event.{Time}
use vrclog_companion.Derive.{DerivedEvent, world_changed, player_joined, player_left}
use vrclog_companion.Notify.Sender.{DiscordSender, read_answer, send}
use vrclog_companion.Notify.Disabled.{batches}
use vrclog_companion.Notify.Refused.{refused_webhook}
use vrclog_companion.Notify.Payload.{
  DiscordPayload, build_world_embed, build_joins_embed, build_leaves_embed, build_embeds,
  split_into_payloads, split_loop, build_payloads,
}
use vrclog_companion.Notify.Queue.{
  FilterConfig, should_notify, event_key, coalesce_one, coalesce_loop, coalesce_queue,
}
use vrclog_companion.Notify.Loop.{
  Setup, new_setup, Notifier, Outcome, SendResult, send_ok, send_retryable, send_fatal, initial,
  Action, enqueues, receives, flushes, fires, handle_send_result, send_all, start_timer, enqueue,
  handle_event, flush, receive_event, step, run, calculate_backoff,
}
use vrclog_companion.Notify.Splits.{all_embeds, IsSendable, build_payloads_ends}
use vrclog_companion.Notify.Coalesce.{replace_all, coalesce_queue-replace_all}
use vrclog_companion.Notify.Stuck.{wedge, IsStuck, wedge-IsStuck}
use vrclog_companion.Notify.Bounds.{IsBounded, run_bounds}
use vrclog_companion.Notify.Progress.{IsArmed, run_progress}
use vrclog_companion.Tests.Records.{strokes, joined}

program : Unit {0}
unfolding build_world_embed build_joins_embed build_leaves_embed build_embeds split_into_payloads
    split_loop build_payloads should_notify event_key coalesce_one coalesce_loop coalesce_queue
    handle_send_result send_all start_timer enqueue handle_event flush receive_event step run wedge
    calculate_backoff
program = tt

abbrev alice : DerivedEvent
alice = record {
  type = player_joined;
  event = record joined { player_id = some "a" };
  prev_world = none;
}

abbrev alice_left : DerivedEvent
alice_left = record {
  type = player_left;
  event = record joined { player_id = some "a" };
  prev_world = none;
}

abbrev bob : DerivedEvent
bob = record {
  type = player_joined;
  event = record joined { player_name = some "Bob" };
  prev_world = none;
}

abbrev home : DerivedEvent
home = record {
  type = world_changed;
  event = record joined { world_name = some "Home" };
  prev_world = none;
}

abbrev batch : List DerivedEvent
batch = alice ∷ home ∷ bob ∷ alice_left ∷ []

build_payloads_ends_example :
    (ps : List DiscordPayload) × (build_payloads strokes strokes batch ≡ some ps)
    × (all_embeds ps ≡ build_embeds strokes strokes batch)
    × All IsSendable ps
build_payloads_ends_example = build_payloads_ends strokes strokes batch

batch_titles :
    map (λ e. e.title) (build_embeds strokes strokes batch)
    ≡ "World Changed" ∷ "Player Joined" ∷ "Player Left" ∷ []
unfolding program
batch_titles = refl

coalesce_queue-replace_all_example : coalesce_queue batch ≡ replace_all batch []
coalesce_queue-replace_all_example = coalesce_queue-replace_all batch

-- Alice's leave takes the place of her join.
coalesce_batch : coalesce_queue batch ≡ alice_left ∷ home ∷ bob ∷ []
unfolding program
coalesce_batch = refl

abbrev all_events : FilterConfig
all_events = record { notify_on_join = true; notify_on_leave = true; notify_on_world_join = true }

abbrev setup : Setup
setup = new_setup (pos 3) all_events (pos 2) strokes strokes

abbrev answers : SendResult → Time → ℕ → Outcome
answers result now k = record {
  result = result;
  retry_after = pos 0;
  now = now;
  jitter = λ d. pos 0;
}

answers_ok : (k : ℕ) → (answers send_ok 9 k).result ≢ send_retryable
answers_ok k h = ground (arith, h)

-- Two events are batched and sent, and a third waits for its timer.
abbrev session : List Action
session =
    enqueues (some alice)
    ∷ receives
    ∷ enqueues (some home)
    ∷ receives
    ∷ fires 0
    ∷ flushes 9 (answers send_ok 9)
    ∷ enqueues (some bob)
    ∷ receives
    ∷ []

run_bounds_example : IsBounded setup (run setup initial session)
run_bounds_example = run_bounds setup session

run_progress_example :
    (((run setup initial session).queue ≡ [])
      ⊎ IsArmed (run setup initial session).flush_ch (run setup initial session).timers)
    × ((flush setup 99 (answers send_ok 9) (run setup initial session)).queue ≡ [])
run_progress_example =
    run_progress setup session 99 (answers send_ok 9)
      (tt, (tt, (tt, (tt, (tt, (answers_ok, (tt, (tt, tt)))))))) answers_ok

session_sent :
    (length (run setup initial session).sent ≡ 1) × ((run setup initial session).queue ≡ bob ∷ [])
unfolding program
session_sent = (refl, refl)

-- A send that has to be retried, and the next event during the backoff.
abbrev limited : Notifier
limited = run setup initial (
    enqueues (some alice)
    ∷ receives
    ∷ fires 0
    ∷ flushes 9 (answers send_retryable 9)
    ∷ enqueues (some bob)
    ∷ [])

wedge-IsStuck_example :
    IsStuck (run setup limited (wedge 10 (answers send_ok 9) limited ++ session))
    × ((run setup limited (wedge 10 (answers send_ok 9) limited ++ session)).sent ≡ limited.sent)
unfolding program
wedge-IsStuck_example =
    wedge-IsStuck setup limited bob [] 10 (answers send_ok 9) session (omega arith) refl refl refl
      refl refl (omega arith) (tt, (tt, (tt, (tt, (tt, (tt, (tt, (tt, tt))))))))

-- A webhook that does not exist any more.
abbrev gone : DiscordSender
gone = record {
  webhook_url = "https://discord.com/api/webhooks/1/a";
  marshal = λ p. some "{}";
  is_url = λ s. true;
  post = λ url body. some (record { status_code = 404; retry_after = "" });
  atoi = λ s. none;
  float_nanos = λ s. none;
}

abbrev queued : Notifier
queued = record initial { event_ch = bob ∷ []; queue = alice ∷ [] }

refusal : (answers send_fatal 9 0).result ≡ (send gone (record { embeds = []; content = "" })).0
unfolding send read_answer
refusal = refl

queued_sent : (flush setup 9 (answers send_fatal 9) queued).sent ≢ []
unfolding program
queued_sent h = ground (arith, h)

refused_webhook_example :
    let n' = flush setup 9 (answers send_fatal 9) queued in
    ((run setup n' session).disabled ≡ true) × (batches setup n' session ≤ 1)
refused_webhook_example =
    refused_webhook setup gone 9 (answers send_fatal 9) queued
      (record { embeds = []; content = "" }) session
      (λ url body. (record { status_code = 404; retry_after = "" }, refl, refl)) refusal queued_sent
