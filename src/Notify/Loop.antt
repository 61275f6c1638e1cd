-- ===== src/Notify/Loop.antt =====
-- internal/notify/notifier.go and backoff.go: the notifier's goroutine.
-- The channels are fields, as are the timers that `afterFunc` has started and not fired, and the
-- payloads that the sender was given. One step is one case of the `select` in `Run`, or a call of
-- `Enqueue` or `triggerFlush` by another goroutine. Nothing else writes what `flush` reads between its
-- lock and its last send, so a flush is one step; its sends are given by their outcomes.
use vrclog_companion.Prelude.{
  ℕ, suc, ◌+◌, ◌-◌, ◌*◌, ◌^◌, ℤ, pos, negsuc, int_eq, String, Bool, true, false, not, ◌&&◌, Option,
  none, some, List, [], ◌∷◌, ◌++◌, length, keep, any, drop, min, ltb, ◌==◌, if◌then◌else◌,
}
use vrclog_companion.Event.{Time}
use vrclog_companion.Derive.{DerivedEvent}
use vrclog_companion.Notify.Payload.{DiscordPayload, build_payloads}
use vrclog_companion.Notify.Queue.{FilterConfig, should_notify, coalesce_queue}

abbrev pub second : ℕ
second = 10 ^ 9

abbrev pub default_max_queue_size : ℕ
default_max_queue_size = 100

-- The capacity of `eventCh`.
abbrev pub event_ch_size : ℕ
event_ch_size = 64

-- `DefaultBackoffConfig`; the multiplier is 2.
abbrev pub initial_delay : ℕ
initial_delay = 1 * second

abbrev pub max_delay : ℕ
max_delay = 5 * 60 * second

abbrev pub shift : ℕ → ℤ → ℕ
shift d (pos j) = d + j
shift d (negsuc j) = d - suc j

-- `Calculate`, where `jitter` is what the random number and the floating point arithmetic add.
unfoldable pub calculate_backoff : (ℕ → ℤ) → ℕ → ℕ
calculate_backoff jitter attempt =
    let delay = min (initial_delay * 2 ^ attempt) max_delay in shift delay (jitter delay)

-- What a notifier is made with. The formats are those of the payloads.
pub record Setup : Type 0 where
  pub filter : FilterConfig
  pub batch_delay : ℕ
  pub max_queue_size : ℕ
  pub show : ℕ → String
  pub format_time : Time → String

-- `NewNotifier`, with `WithMaxQueueSize(size)`.
abbrev pub new_setup : ℤ → FilterConfig → ℤ → (ℕ → String) → (Time → String) → Setup
new_setup batch_delay_sec filter size show format_time = record {
  filter = filter;
  batch_delay = batch_delay_of batch_delay_sec;
  max_queue_size = size_of size;
  show = show;
  format_time = format_time;
}
  where
    batch_delay_of : ℤ → ℕ
    batch_delay_of (pos n) = (if n == 0 then 3 else n) * second
    batch_delay_of (negsuc n) = 3 * second

    size_of : ℤ → ℕ
    size_of (pos n) = if n == 0 then default_max_queue_size else n
    size_of (negsuc n) = default_max_queue_size

pub record Timer : Type 0 where
  pub id : ℕ
  pub delay : ℕ

pub record Notifier : Type 0 where
  pub event_ch : List DerivedEvent
  pub flush_ch : Bool
  pub queue : List DerivedEvent
  pub timer_handle : Option ℕ
  pub disabled : Bool
  pub backoff_attempt : ℕ
  pub backoff_until : Time
  pub timers : List Timer
  pub next_id : ℕ
  pub sent : List DiscordPayload
  pub stopped : Bool

abbrev pub initial : Notifier
initial = record {
  event_ch = [];
  flush_ch = false;
  queue = [];
  timer_handle = none;
  disabled = false;
  backoff_attempt = 0;
  backoff_until = 0;
  timers = [];
  next_id = 0;
  sent = [];
  stopped = false;
}

pub data SendResult : Type 0 where
  send_ok send_retryable send_fatal : SendResult

-- What `Send` returns, the clock after it, and the jitter of a backoff.
pub record Outcome : Type 0 where
  pub result : SendResult
  pub retry_after : ℤ
  pub now : Time
  pub jitter : ℕ → ℤ

unfoldable pub handle_send_result : Outcome → Notifier → Notifier
handle_send_result o n = elim o.result [
  | send_ok ↦ record n { backoff_attempt = 0; backoff_until = 0 }
  | send_retryable ↦ record n {
    backoff_attempt = suc n.backoff_attempt;
    backoff_until =
        if int_eq o.retry_after (pos 0)
        then o.now + calculate_backoff o.jitter (suc n.backoff_attempt)
        else shift o.now o.retry_after;
  }
  | send_fatal ↦ record n { disabled = true }
]

-- The loop over the payloads, up to the first that is not sent.
unfoldable pub send_all : List DiscordPayload → ℕ → (ℕ → Outcome) → Notifier → Notifier
send_all [] k send n = n
send_all (p ∷ payloads) k send n =
    let n' = handle_send_result (send k) (record n { sent = n.sent ++ p ∷ [] }) in
    elim (send k).result [
      | send_ok ↦ send_all payloads (suc k) send n'
      | send_retryable ↦ n'
      | send_fatal ↦ n'
    ]

-- `n.afterFunc(delay, n.triggerFlush)`, where no timer is held.
unfoldable pub start_timer : ℕ → Notifier → Notifier
start_timer delay n = elim n.timer_handle [
  | some id ↦ n
  | none ↦ record n {
    timer_handle = some n.next_id;
    timers = n.timers ++ (record { id = n.next_id; delay = delay }) ∷ [];
    next_id = suc n.next_id;
  }
]

abbrev pub send_payloads : Option (List DiscordPayload) → (ℕ → Outcome) → Notifier → Notifier
send_payloads none send n = n
send_payloads (some payloads) send n = send_all payloads 0 send n

-- `n.queue[dropped:]`, where it is too long.
abbrev pub cap_queue : ℕ → List DerivedEvent → List DerivedEvent
cap_queue size queue = if ltb size (length queue) then drop (length queue - size) queue else queue

pub data Action : Type 0 where
  enqueues : Option DerivedEvent → Action
  receives : Action
  flushes : Time → (ℕ → Outcome) → Action
  fires : ℕ → Action
  stops : Time → (ℕ → Outcome) → Action

module _ (s : Setup) where
  unfoldable pub enqueue : Option DerivedEvent → Notifier → Notifier
  enqueue none n = n
  enqueue (some ev) n =
      if n.disabled
      then n
      else if not (should_notify s.filter ev.type)
      then n
      else if ltb (length n.event_ch) event_ch_size
      then record n { event_ch = n.event_ch ++ ev ∷ [] }
      else n

  unfoldable pub handle_event : DerivedEvent → Notifier → Notifier
  handle_event ev n =
      start_timer s.batch_delay
        (record n { queue = cap_queue s.max_queue_size (coalesce_queue (n.queue ++ ev ∷ [])) })

  unfoldable pub flush : Time → (ℕ → Outcome) → Notifier → Notifier
  flush now send n = elim n.queue [
    | [] ↦ record n { timer_handle = none }
    | ev ∷ events ↦
        if ltb now n.backoff_until
        then start_timer (n.backoff_until - now) n
        else send_payloads (build_payloads s.show s.format_time n.queue) send
            (record n { queue = []; timer_handle = none })
  ]

  -- `case ev := <-n.eventCh`.
  unfoldable pub receive_event : Notifier → Notifier
  receive_event n = elim n.event_ch [
    | [] ↦ n
    | ev ∷ events ↦ handle_event ev (record n { event_ch = events })
  ]

  -- A case that is not ready cannot be taken, and after the last flush the goroutine is gone.
  unfoldable pub step : Notifier → Action → Notifier
  step n (enqueues ev) = enqueue ev n
  step n receives = if n.stopped then n else receive_event n
  step n (flushes now send) =
      if not n.stopped && n.flush_ch then flush now send (record n { flush_ch = false }) else n
  step n (fires timer) =
      if any (λ t. t.id == timer) n.timers
      then record n { timers = keep (λ t. not (t.id == timer)) n.timers; flush_ch = true }
      else n
  step n (stops now send) = if n.stopped then n else record (flush now send n) { stopped = true }

  unfoldable pub run : Notifier → List Action → Notifier
  run n [] = n
  run n (a ∷ actions) = run (step n a) actions
