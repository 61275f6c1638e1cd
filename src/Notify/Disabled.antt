-- ===== src/Notify/Disabled.antt =====
-- After a webhook is refused, by internal/notify/notifier.go and sender.go.
use Prim.Derive.{subst}
use vrclog_companion.Prelude.{
  ℕ, suc, ◌+◌, ◌-◌, ◌≤◌, ◌≡◌, refl, sym, ap, ◌∙◌, Bool, true, false, not, ◌&&◌, Option, none, some,
  List, [], ◌∷◌, ◌++◌, length, any, ltb, ◌==◌, arith, Bool-cases, Option-cases, List-cases, ◌⊎◌,
  inl, inr, if◌then◌else◌,
}
use vrclog_companion.Event.{Time}
use vrclog_companion.Derive.{DerivedEvent}
use vrclog_companion.Notify.Payload.{DiscordPayload, build_payloads}
use vrclog_companion.Notify.Queue.{coalesce_queue}
use vrclog_companion.Notify.Loop.{
  Setup, Notifier, SendResult, send_ok, send_retryable, send_fatal, Outcome, handle_send_result,
  send_all, start_timer, send_payloads, cap_queue, Action, enqueues, receives, flushes, fires,
  stops, enqueue, handle_event, flush, receive_event, step, run,
}

abbrev pub of_queue : List DerivedEvent → ℕ
of_queue [] = 0
of_queue (ev ∷ events) = 1

-- One batch at most for what is queued, and one for each event that waits in the channel.
abbrev pub batches_left : Notifier → ℕ
batches_left n = of_queue n.queue + length n.event_ch

abbrev one_unless : Bool → ℕ
one_unless true = 0
one_unless false = 1

-- Whether the sender was given something in between.
abbrev pub new_batch : Notifier → Notifier → ℕ
new_batch n n' = one_unless (length n'.sent == length n.sent)

-- The steps of a run in which something is sent.
unfoldable pub batches : Setup → Notifier → List Action → ℕ
batches s n [] = 0
batches s n (a ∷ actions) = new_batch n (step s n a) + batches s (step s n a) actions

-- What a batch leaves alone.
pub record IsSame (n n' : Notifier) : Type 0 where
  pub queue : n'.queue ≡ n.queue
  pub event_ch : n'.event_ch ≡ n.event_ch
  pub disabled : n.disabled ≡ true → n'.disabled ≡ true

result_cases : (r : SendResult) → (r ≡ send_ok) ⊎ ((r ≡ send_retryable) ⊎ (r ≡ send_fatal))
result_cases send_ok = inl refl
result_cases send_retryable = inr (inl refl)
result_cases send_fatal = inr (inr refl)

handle_send_result-IsSame : (o : Outcome) (n : Notifier) → IsSame n (handle_send_result o n)
unfolding handle_send_result
handle_send_result-IsSame o n = elim (result_cases o.result) [
  | inl e ↦ rw (handle_send_result, e) (record { queue = refl; event_ch = refl; disabled = λ h. h })
  | inr (inl e) ↦
      rw (handle_send_result, e) (record { queue = refl; event_ch = refl; disabled = λ h. h })
  | inr (inr e) ↦
      rw (handle_send_result, e) (record { queue = refl; event_ch = refl; disabled = λ h. refl })
]

send_all-IsSame :
    (payloads : List DiscordPayload) (k : ℕ) (send : ℕ → Outcome) (n : Notifier)
    → IsSame n (send_all payloads k send n)
unfolding send_all
send_all-IsSame [] k send n = record { queue = refl; event_ch = refl; disabled = λ h. h }
send_all-IsSame (p ∷ payloads) k send n =
    let once = handle_send_result-IsSame (send k) (record n { sent = n.sent ++ p ∷ [] }) in
    let later =
      send_all-IsSame payloads (suc k) send
        (handle_send_result (send k) (record n { sent = n.sent ++ p ∷ [] })) in
    elim (result_cases (send k).result) [
      | inl e ↦
          rw (send_all, e)
            (record {
              queue = later.queue ∙ once.queue;
              event_ch = later.event_ch ∙ once.event_ch;
              disabled = λ h. later.disabled (once.disabled h);
            })
      | inr (inl e) ↦
          rw (send_all, e)
            (record { queue = once.queue; event_ch = once.event_ch; disabled = once.disabled })
      | inr (inr e) ↦
          rw (send_all, e)
            (record { queue = once.queue; event_ch = once.event_ch; disabled = once.disabled })
    ]

pub send_payloads-IsSame :
    (payloads : Option (List DiscordPayload)) (send : ℕ → Outcome) (n : Notifier)
    → IsSame n (send_payloads payloads send n)
send_payloads-IsSame none send n = record { queue = refl; event_ch = refl; disabled = λ h. h }
send_payloads-IsSame (some payloads) send n = send_all-IsSame payloads 0 send n

-- A step sends nothing, or uses up a batch.
record IsSpent (n n' : Notifier) : Type 0 where
  disabled : n.disabled ≡ true → n'.disabled ≡ true
  left : new_batch n n' + batches_left n' ≤ batches_left n

same_length : (a b : ℕ) → a ≡ b → one_unless (a == b) ≡ 0
same_length a b h = ground (arith, h)

IsSpent-idle :
    (n n' : Notifier)
    → n'.sent ≡ n.sent
    → n'.disabled ≡ n.disabled
    → batches_left n' ≤ batches_left n
    → IsSpent n n'
IsSpent-idle n n' same d left =
    let none_sent : new_batch n n' ≡ 0 = same_length _ _ (ap length same) in
    record { disabled = λ h. d ∙ h; left = omega (arith, none_sent, left) }

one_batch : (b : Bool) → one_unless b ≤ 1
one_batch true = omega arith
one_batch false = omega arith

IsSpent-batch :
    (n n' : Notifier)
    → (n.disabled ≡ true → n'.disabled ≡ true)
    → suc (batches_left n') ≤ batches_left n
    → IsSpent n n'
IsSpent-batch n n' d left =
    let one : new_batch n n' ≤ 1 = one_batch (length n'.sent == length n.sent) in
    record { disabled = d; left = omega (arith, one, left) }

start_timer-IsSpent : (delay : ℕ) (n : Notifier) → IsSpent n (start_timer delay n)
unfolding start_timer
start_timer-IsSpent delay n = elim (Option-cases n.timer_handle) [
  | inl e ↦
      IsSpent-idle _ _ (rw (start_timer, e) refl) (rw (start_timer, e) refl)
        (rw (start_timer, e) (omega arith))
  | inr (id, e) ↦
      IsSpent-idle _ _ (rw (start_timer, e) refl) (rw (start_timer, e) refl)
        (rw (start_timer, e) (omega arith))
]

flush-IsSpent :
    (s : Setup) (now : Time) (send : ℕ → Outcome) (n : Notifier) → IsSpent n (flush s now send n)
unfolding flush
flush-IsSpent s now send n = elim (List-cases n.queue) [
  | inl e ↦
      let q : of_queue n.queue ≡ 0 = ap of_queue e in
      IsSpent-idle _ _ (rw (flush, e) refl) (rw (flush, e) refl) (rw (flush, e) (omega (arith, q)))
  | inr (ev, events, e) ↦ elim (Bool-cases (ltb now n.backoff_until)) [
    | inl waits ↦
        let kept : flush s now send n ≡ start_timer (n.backoff_until - now) n =
          ground (arith, e, waits) in
        subst (IsSpent n) (sym kept) (start_timer-IsSpent (n.backoff_until - now) n)
    | inr goes ↦
        let taken : Notifier = record n { queue = []; timer_handle = none } in
        let payloads = build_payloads s.show s.format_time n.queue in
        let same = send_payloads-IsSame payloads send taken in
        let q : of_queue n.queue ≡ 1 = ap of_queue e in
        let q' : of_queue (send_payloads payloads send taken).queue ≡ 0 = ap of_queue same.queue in
        let c : length (send_payloads payloads send taken).event_ch ≡ length n.event_ch =
          ap length same.event_ch in
        let goes_on : flush s now send n ≡ send_payloads payloads send taken =
          ground (arith, e, goes) in
        subst (IsSpent n) (sym goes_on) (IsSpent-batch _ _ same.disabled (omega (arith, q, q', c)))
  ]
]

-- The events that the code calls `disabled` for: no new one is taken in.
enqueue-IsSpent :
    (s : Setup) (ev : Option DerivedEvent) (n : Notifier) → n.disabled ≡ true → enqueue s ev n ≡ n
unfolding enqueue
enqueue-IsSpent s none n h = refl
enqueue-IsSpent s (some ev) n h = rw h refl

of_queue-low : (l : List DerivedEvent) → of_queue l ≤ 1
of_queue-low [] = omega arith
of_queue-low (ev ∷ events) = omega arith

nothing : (n : Notifier) → IsSpent n n
nothing n = IsSpent-idle n n refl refl (omega arith)

handle_event-IsSpent :
    (s : Setup) (ev : DerivedEvent) (rest : List DerivedEvent) (n : Notifier)
    → n.event_ch ≡ ev ∷ rest
    → IsSpent n (handle_event s ev (record n { event_ch = rest }))
unfolding handle_event
handle_event-IsSpent s ev rest n e =
    let queue = cap_queue s.max_queue_size (coalesce_queue (n.queue ++ ev ∷ [])) in
    let taken : Notifier = record n { event_ch = rest; queue = queue } in
    let few : length n.event_ch ≡ suc (length rest) = ap length e in
    let one = of_queue-low queue in
    let timed = start_timer-IsSpent s.batch_delay taken in
    let left = timed.left in
    record { disabled = timed.disabled; left = omega (arith, few, one, left) }

receive_event-IsSpent : (s : Setup) (n : Notifier) → IsSpent n (receive_event s n)
unfolding receive_event
receive_event-IsSpent s n = elim (List-cases n.event_ch) [
  | inl e ↦
      let same : receive_event s n ≡ n = ground (arith, e) in
      subst (IsSpent n) (sym same) (nothing n)
  | inr (ev, rest, e) ↦
      let took : receive_event s n ≡ handle_event s ev (record n { event_ch = rest }) =
        ground (arith, e) in
      subst (IsSpent n) (sym took) (handle_event-IsSpent s ev rest n e)
]

if_IsSpent :
    (b : Bool) (n x y : Notifier) → IsSpent n x → IsSpent n y → IsSpent n (if b then x else y)
if_IsSpent true n x y h k = h
if_IsSpent false n x y h k = k

step-IsSpent : (s : Setup) (n : Notifier) (a : Action) → n.disabled ≡ true → IsSpent n (step s n a)
unfolding step
step-IsSpent s n (enqueues ev) h = subst (IsSpent n) (sym (enqueue-IsSpent s ev n h)) (nothing n)
step-IsSpent s n receives h = if_IsSpent n.stopped n _ _ (nothing n) (receive_event-IsSpent s n)
step-IsSpent s n (flushes now send) h =
    let x = flush-IsSpent s now send (record n { flush_ch = false }) in
    if_IsSpent (not n.stopped && n.flush_ch) n _ _ (record { disabled = x.disabled; left = x.left })
      (nothing n)
step-IsSpent s n (fires timer) h =
    if_IsSpent (any (λ t. t.id == timer) n.timers) n _ _ (IsSpent-idle n _ refl refl (omega arith))
      (nothing n)
step-IsSpent s n (stops now send) h =
    let x = flush-IsSpent s now send n in
    if_IsSpent n.stopped n _ _ (nothing n) (record { disabled = x.disabled; left = x.left })

-- Once a send was fatal, the notifier stays disabled, and in every run from there it gives the sender
-- one more batch at most for each event that is in its channel, and one for its queue.
pub run_disabled :
    (s : Setup) (n : Notifier) (actions : List Action)
    → n.disabled ≡ true
    → ((run s n actions).disabled ≡ true) × (batches s n actions ≤ batches_left n)
unfolding run batches
run_disabled s n [] h = (h, omega arith)
run_disabled s n (a ∷ actions) h =
    let x = step-IsSpent s n a h in
    let (stays, few) = run_disabled s (step s n a) actions (x.disabled h) in
    let left = x.left in (stays, omega (arith, few, left))
