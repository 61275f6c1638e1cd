-- ===== src/Notify/Progress.antt =====
-- While no send of internal/notify/notifier.go has to be retried, no event is left behind.
use vrclog_companion.Prelude.{
  ℕ, suc, ◌≡◌, ◌≢◌, ◌≤◌, refl, ap, Bool, true, false, Option, none, some, List, [], ◌∷◌, ◌++◌,
  arith, List-cases, inl, inr, All, ◌⊎◌, length, length-append,
}
use vrclog_companion.Event.{Time}
use vrclog_companion.Derive.{DerivedEvent}
use vrclog_companion.Notify.Payload.{DiscordPayload}
use vrclog_companion.Notify.Splits.{build_payloads_ends}
use vrclog_companion.Notify.Loop.{
  Setup, Notifier, Timer, Action, enqueues, receives, flushes, fires, stops, enqueue, handle_event,
  flush, receive_event, start_timer, step, run, Outcome, send_all, handle_send_result,
  send_retryable, initial,
}
use vrclog_companion.Notify.Stuck.{receive_none, receive_first}

-- The outcomes of the action's sends never ask for a retry.
abbrev pub IsAccepted : Action → Type 0
IsAccepted (flushes now send) = (k : ℕ) → (send k).result ≢ send_retryable
IsAccepted (stops now send) = (k : ℕ) → (send k).result ≢ send_retryable
IsAccepted _ = Unit

-- A flush is asked for, or a timer is pending that will ask for one.
abbrev pub IsArmed : Bool → List Timer → Type 0
IsArmed flush_ch timers = (flush_ch ≡ true) ⊎ (1 ≤ length timers)

abbrev pub is_held : Option ℕ → Bool
is_held none = false
is_held (some id) = true

pub record IsAwaited (n : Notifier) : Type 0 where
  pub calm : n.backoff_until ≡ 0
  pub held : (n.queue ≡ []) ⊎ (is_held n.timer_handle ≡ true)
  pub armed : (is_held n.timer_handle ≡ false) ⊎ IsArmed n.flush_ch n.timers

start_timer-IsAwaited :
    (delay : ℕ) (n : Notifier)
    → n.backoff_until ≡ 0
    → (is_held n.timer_handle ≡ false) ⊎ IsArmed n.flush_ch n.timers
    → IsAwaited (start_timer delay n)
unfolding start_timer
start_timer-IsAwaited delay n c a =
    ground (arith, length-append n.timers ((record { id = n.next_id; delay = delay }) ∷ []))

handle_event-IsAwaited :
    (s : Setup) (ev : DerivedEvent) (n : Notifier) → IsAwaited n → IsAwaited (handle_event s ev n)
unfolding handle_event
handle_event-IsAwaited s ev n v = start_timer-IsAwaited s.batch_delay _ v.calm v.armed

receive_event-IsAwaited : (s : Setup) (n : Notifier) → IsAwaited n → IsAwaited (receive_event s n)
receive_event-IsAwaited s n v = elim (List-cases n.event_ch) [
  | inl e ↦ rw (receive_none s n e) v
  | inr (ev, rest, e) ↦ rw (receive_first s n ev rest e) (
      handle_event-IsAwaited s ev (record n { event_ch = rest })
        (record { calm = v.calm; held = v.held; armed = v.armed }))
]

-- Sends that ask for no retry leave the notifier calm, and its queue and its handle as they are.
record IsCalm (n m : Notifier) : Type 0 where
  calm : m.backoff_until ≡ 0
  queue : m.queue ≡ n.queue
  handle : m.timer_handle ≡ n.timer_handle

send_all-IsCalm :
    (payloads : List DiscordPayload) (k : ℕ) (send : ℕ → Outcome) (n : Notifier)
    → ((k : ℕ) → (send k).result ≢ send_retryable)
    → n.backoff_until ≡ 0
    → IsCalm n (send_all payloads k send n)
unfolding send_all handle_send_result
send_all-IsCalm [] k send n a c = record { calm = c; queue = refl; handle = refl }
send_all-IsCalm (p ∷ payloads) k send n a c =
    let n' = handle_send_result (send k) (record n { sent = n.sent ++ p ∷ [] }) in
    ground (arith, a k, c, send_all-IsCalm payloads (suc k) send n' a)

-- A flush of a calm notifier empties the queue and lets go of the handle.
flush_all :
    (s : Setup) (now : Time) (send : ℕ → Outcome) (n : Notifier)
    → ((k : ℕ) → (send k).result ≢ send_retryable)
    → n.backoff_until ≡ 0
    → ((flush s now send n).queue ≡ [])
      × ((flush s now send n).timer_handle ≡ none)
      × ((flush s now send n).backoff_until ≡ 0)
unfolding flush
flush_all s now send n a c =
    let (ps, e, all, ok) = build_payloads_ends s.show s.format_time n.queue in
    let n' : Notifier = record n { queue = []; timer_handle = none } in
    ground (arith, e, c, send_all-IsCalm ps 0 send n' a c)

flush-IsAwaited :
    (s : Setup) (now : Time) (send : ℕ → Outcome) (n : Notifier)
    → ((k : ℕ) → (send k).result ≢ send_retryable)
    → n.backoff_until ≡ 0
    → IsAwaited (flush s now send n)
flush-IsAwaited s now send n a c =
    let (q, h, b) = flush_all s now send n a c in
    record { calm = b; held = inl q; armed = inl (ap is_held h) }

step-IsAwaited :
    (s : Setup) (n : Notifier) (a : Action) → IsAccepted a → IsAwaited n → IsAwaited (step s n a)
unfolding step enqueue
step-IsAwaited s n (enqueues none) h v = v
step-IsAwaited s n (enqueues (some ev)) h v = ground arith
step-IsAwaited s n receives h v = ground (arith, receive_event-IsAwaited s n v)
step-IsAwaited s n (flushes now send) h v =
    ground (arith, flush-IsAwaited s now send (record n { flush_ch = false }) h v.calm)
step-IsAwaited s n (fires timer) h v = ground arith
step-IsAwaited s n (stops now send) h v = ground (arith, flush-IsAwaited s now send n h v.calm)

run-IsAwaited :
    (s : Setup) (n : Notifier) (actions : List Action)
    → All IsAccepted actions
    → IsAwaited n
    → IsAwaited (run s n actions)
unfolding run
run-IsAwaited s n [] h v = v
run-IsAwaited s n (a ∷ actions) h v =
    run-IsAwaited s (step s n a) actions h.1 (step-IsAwaited s n a h.0 v)

-- In every run in which no send asks for a retry: while events are in the queue, a flush is asked for
-- or a timer is pending, and a flush at any time, whose sends ask for no retry either, empties the
-- queue.
pub run_progress :
    (s : Setup) (actions : List Action) (now : Time) (send : ℕ → Outcome)
    → All IsAccepted actions
    → ((k : ℕ) → (send k).result ≢ send_retryable)
    → let n = run s initial actions in
      ((n.queue ≡ []) ⊎ IsArmed n.flush_ch n.timers) × ((flush s now send n).queue ≡ [])
run_progress s actions now send h a =
    let n = run s initial actions in
    let v =
      run-IsAwaited s initial actions h
        (record { calm = refl; held = inl refl; armed = inl refl }) in
    (ground arith, (flush_all s now send n a v.calm).0)
