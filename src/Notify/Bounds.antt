-- ===== src/Notify/Bounds.antt =====
-- What stays true of internal/notify/notifier.go in every order of its goroutine's cases.
use vrclog_companion.Prelude.{
  ℕ, zero, suc, ◌-◌, ◌≡◌, ◌≤◌, refl, ap, false, none, some, List, [], ◌∷◌, ◌++◌, arith, ltb,
  Bool-cases, List-cases, inl, inr, All, All-append_last, length, length-append, length-drop, drop,
}
use vrclog_companion.Event.{Time}
use vrclog_companion.Derive.{DerivedEvent}
use vrclog_companion.Notify.Payload.{DiscordPayload}
use vrclog_companion.Notify.Splits.{IsSendable, build_payloads_ends}
use vrclog_companion.Notify.Queue.{coalesce_queue}
use vrclog_companion.Notify.Coalesce.{IsCoalesced, coalesce_queue-IsCoalesced}
use vrclog_companion.Notify.Stuck.{receive_none, receive_first}
use vrclog_companion.Notify.Loop.{
  cap_queue, Setup, Notifier, Action, enqueues, receives, flushes, fires, stops, enqueue,
  handle_event, flush, receive_event, start_timer, step, run, Outcome, send_all, handle_send_result,
  initial, event_ch_size,
}

pub record IsBounded (s : Setup) (n : Notifier) : Type 0 where
  pub channel : length n.event_ch ≤ event_ch_size
  pub queue : length n.queue ≤ s.max_queue_size
  pub coalesced : IsCoalesced n.queue
  pub sendable : All IsSendable n.sent

drop-IsCoalesced : (k : ℕ) (l : List DerivedEvent) → IsCoalesced l → IsCoalesced (drop k l)
drop-IsCoalesced zero l c = c
drop-IsCoalesced (suc k) [] c = tt
drop-IsCoalesced (suc k) (x ∷ l) c = drop-IsCoalesced k l c.1

cap_queue-IsCoalesced :
    (size : ℕ) (l : List DerivedEvent)
    → IsCoalesced l
    → (length (cap_queue size l) ≤ size) × IsCoalesced (cap_queue size l)
cap_queue-IsCoalesced size l c = elim (Bool-cases (ltb size (length l))) [
  | inl e ↦
      rw e
        ((omega (arith, length-drop (length l - size) l)), drop-IsCoalesced (length l - size) l c)
  | inr e ↦ rw e (ground (arith, e), c)
]

-- The same queue and channel, and payloads that Discord takes.
record IsSent (n m : Notifier) : Type 0 where
  event_ch : m.event_ch ≡ n.event_ch
  queue : m.queue ≡ n.queue
  sent : All IsSendable m.sent

handle_send_result-IsSent :
    (o : Outcome) (n : Notifier) → All IsSendable n.sent → IsSent n (handle_send_result o n)
unfolding handle_send_result
handle_send_result-IsSent o n a = ground arith

send_all-IsSent :
    (payloads : List DiscordPayload) (k : ℕ) (send : ℕ → Outcome) (n : Notifier)
    → All IsSendable payloads
    → All IsSendable n.sent
    → IsSent n (send_all payloads k send n)
unfolding send_all
send_all-IsSent [] k send n p a = record { event_ch = refl; queue = refl; sent = a }
send_all-IsSent (p ∷ payloads) k send n ps a =
    let m : Notifier = record n { sent = n.sent ++ p ∷ [] } in
    let n' = handle_send_result (send k) m in
    let v = handle_send_result-IsSent (send k) m (All-append_last IsSendable n.sent p a ps.0) in
    let w = send_all-IsSent payloads (suc k) send n' ps.1 v.sent in ground arith

start_timer-IsBounded :
    (s : Setup) (delay : ℕ) (n : Notifier) → IsBounded s n → IsBounded s (start_timer delay n)
unfolding start_timer
start_timer-IsBounded s delay n v = ground arith

handle_event-IsBounded :
    (s : Setup) (ev : DerivedEvent) (n : Notifier)
    → IsBounded s n
    → IsBounded s (handle_event s ev n)
unfolding handle_event
handle_event-IsBounded s ev n v =
    let l = coalesce_queue (n.queue ++ ev ∷ []) in
    let (size, apart) =
      cap_queue-IsCoalesced s.max_queue_size l (coalesce_queue-IsCoalesced (n.queue ++ ev ∷ [])) in
    start_timer-IsBounded s s.batch_delay (record n { queue = cap_queue s.max_queue_size l })
      (record { channel = v.channel; queue = size; coalesced = apart; sendable = v.sendable })

flush-IsBounded :
    (s : Setup) (now : Time) (send : ℕ → Outcome) (n : Notifier)
    → IsBounded s n
    → IsBounded s (flush s now send n)
unfolding flush
flush-IsBounded s now send n v =
    let (ps, e, all, ok) = build_payloads_ends s.show s.format_time n.queue in
    let n' : Notifier = record n { queue = []; timer_handle = none } in
    let w = send_all-IsSent ps 0 send n' ok v.sendable in
    ground (arith, e, w, start_timer-IsBounded s (n.backoff_until - now) n v)

receive_event-IsBounded :
    (s : Setup) (n : Notifier) → IsBounded s n → IsBounded s (receive_event s n)
receive_event-IsBounded s n v = elim (List-cases n.event_ch) [
  | inl e ↦ rw (receive_none s n e) v
  | inr (ev, rest, e) ↦
      let room : length rest ≤ event_ch_size = omega (arith, v.channel, ap length e) in
      rw (receive_first s n ev rest e) (
        handle_event-IsBounded s ev (record n { event_ch = rest })
          (record {
            channel = room;
            queue = v.queue;
            coalesced = v.coalesced;
            sendable = v.sendable;
          }))
]

step-IsBounded : (s : Setup) (n : Notifier) (a : Action) → IsBounded s n → IsBounded s (step s n a)
unfolding step enqueue
step-IsBounded s n (enqueues none) v = v
step-IsBounded s n (enqueues (some ev)) v = ground (arith, length-append n.event_ch (ev ∷ []))
step-IsBounded s n receives v = ground (arith, receive_event-IsBounded s n v)
step-IsBounded s n (flushes now send) v =
    let w =
      flush-IsBounded s now send (record n { flush_ch = false })
        (record {
          channel = v.channel;
          queue = v.queue;
          coalesced = v.coalesced;
          sendable = v.sendable;
        }) in
    ground arith
step-IsBounded s n (fires timer) v = ground arith
step-IsBounded s n (stops now send) v = ground (arith, flush-IsBounded s now send n v)

run-IsBounded_from :
    (s : Setup) (n : Notifier) (actions : List Action)
    → IsBounded s n
    → IsBounded s (run s n actions)
unfolding run
run-IsBounded_from s n [] v = v
run-IsBounded_from s n (a ∷ actions) v =
    run-IsBounded_from s (step s n a) actions (step-IsBounded s n a v)

-- In every order of the calls, the timers and the cases of the goroutine: the channel holds 64 events
-- at most and the queue no more than its limit, no two events of the queue have one key, and every
-- payload that was sent has an embed and ten at most.
pub run_bounds : (s : Setup) (actions : List Action) → IsBounded s (run s initial actions)
run_bounds s actions =
    run-IsBounded_from s initial actions
      (record { channel = omega arith; queue = omega arith; coalesced = tt; sendable = tt })
