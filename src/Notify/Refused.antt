-- ===== src/Notify/Refused.antt =====
-- A webhook that Discord refuses, by internal/notify/sender.go and notifier.go.
use vrclog_companion.Prelude.{
  ℕ, ◌-◌, ◌≤◌, ◌≡◌, ◌≢◌, refl, ap, ◌∙◌, String, Bool, true, not, ◌&&◌, Option, none, some, List, [],
  ◌∷◌, ◌++◌, length, ltb, leb, ◌==◌, arith, is_empty, Bool-cases, Option-cases, List-cases, inl,
  inr,
}
use vrclog_companion.Event.{Time}
use vrclog_companion.Notify.Payload.{DiscordPayload, build_payloads}
use vrclog_companion.Notify.Loop.{
  Setup, Notifier, send_fatal, Outcome, handle_send_result, send_all, start_timer, send_payloads,
  Action, flush, run,
}
use vrclog_companion.Notify.Sender.{Answer, DiscordSender, read_answer, send}
use vrclog_companion.Notify.Disabled.{
  send_payloads-IsSame, of_queue, batches, batches_left, run_disabled,
}

-- A status of a request that is at fault, but not for its rate.
abbrev pub is_refusal : ℕ → Bool
is_refusal status = leb 400 status && ltb status 500 && not (status == 429)

read_answer-refused :
    (s : DiscordSender) (a : Answer)
    → is_refusal a.status_code ≡ true
    → (read_answer s a).0 ≡ send_fatal
unfolding read_answer
read_answer-refused s a h = ground (arith, h)

send-refused :
    (c : DiscordSender) (p : DiscordPayload)
    → ((url body : String)
        → (a : Answer) × (c.post url body ≡ some a) × (is_refusal a.status_code ≡ true))
    → (send c p).0 ≡ send_fatal
unfolding send
send-refused c p h = elim (Bool-cases (is_empty c.webhook_url)) [
  | inl without ↦ rw (send, without) refl
  | inr there ↦ elim (Option-cases (c.marshal p)) [
    | inl failed ↦ rw (send, there, failed) refl
    | inr (body, made) ↦ elim (Bool-cases (c.is_url c.webhook_url)) [
      | inr bad ↦ rw (send, there, made, bad) refl
      | inl good ↦
          let (a, answered, refused) = h c.webhook_url body in
          rw (send, there, made, good, answered) (read_answer-refused c a refused)
    ]
  ]
]

-- Where a payload is given to the sender and its send is fatal, the notifier is disabled.
handle_fatal :
    (o : Outcome) (n : Notifier) → o.result ≡ send_fatal → (handle_send_result o n).disabled ≡ true
unfolding handle_send_result
handle_fatal o n h = rw (handle_send_result, h) refl

send_all-fatal :
    (payloads : List DiscordPayload) (k : ℕ) (sends : ℕ → Outcome) (n : Notifier)
    → (sends k).result ≡ send_fatal
    → (send_all payloads k sends n).sent ≢ n.sent
    → (send_all payloads k sends n).disabled ≡ true
unfolding send_all
send_all-fatal [] k sends n h changed = absurd (changed refl)
send_all-fatal (p ∷ payloads) k sends n h changed =
    rw (send_all, h) (handle_fatal (sends k) (record n { sent = n.sent ++ p ∷ [] }) h)

send_payloads-fatal :
    (payloads : Option (List DiscordPayload)) (sends : ℕ → Outcome) (n : Notifier)
    → (sends 0).result ≡ send_fatal
    → (send_payloads payloads sends n).sent ≢ n.sent
    → (send_payloads payloads sends n).disabled ≡ true
send_payloads-fatal none sends n h changed = absurd (changed refl)
send_payloads-fatal (some payloads) sends n h changed = send_all-fatal payloads 0 sends n h changed

start_timer-sent : (delay : ℕ) (n : Notifier) → (start_timer delay n).sent ≡ n.sent
unfolding start_timer
start_timer-sent delay n = elim (Option-cases n.timer_handle) [
  | inl e ↦ rw (start_timer, e) refl
  | inr (id, e) ↦ rw (start_timer, e) refl
]

flush-fatal :
    (s : Setup) (now : Time) (sends : ℕ → Outcome) (n : Notifier)
    → (sends 0).result ≡ send_fatal
    → (flush s now sends n).sent ≢ n.sent
    → ((flush s now sends n).disabled ≡ true)
      × (batches_left (flush s now sends n) ≡ length n.event_ch)
unfolding flush
flush-fatal s now sends n h changed = elim (List-cases n.queue) [
  | inl e ↦ absurd (changed (rw (flush, e) refl))
  | inr (ev, events, e) ↦ elim (Bool-cases (ltb now n.backoff_until)) [
    | inl waits ↦
        let kept : flush s now sends n ≡ start_timer (n.backoff_until - now) n =
          ground (arith, e, waits) in
        absurd (changed (ap Notifier.sent kept ∙ start_timer-sent (n.backoff_until - now) n))
    | inr goes ↦
        let taken : Notifier = record n { queue = []; timer_handle = none } in
        let payloads = build_payloads s.show s.format_time n.queue in
        let same = send_payloads-IsSame payloads sends taken in
        let goes_on : flush s now sends n ≡ send_payloads payloads sends taken =
          ground (arith, e, goes) in
        let q : of_queue (send_payloads payloads sends taken).queue ≡ 0 = ap of_queue same.queue in
        let c : length (send_payloads payloads sends taken).event_ch ≡ length n.event_ch =
          ap length same.event_ch in
        (
          ap Notifier.disabled goes_on
              ∙ send_payloads-fatal payloads sends taken h
                  (λ k. changed (ap Notifier.sent goes_on ∙ k)),
          ap batches_left goes_on ∙ omega (arith, q, c),
        )
  ]
]

-- If every post to the webhook is answered with a status from 400 to 499 that is not 429, then a flush
-- that gives the sender something disables the notifier; it stays disabled in every run from there,
-- and in that run the sender gets one more batch at most for each event that was in the channel.
pub refused_webhook :
    (s : Setup) (c : DiscordSender) (now : Time) (sends : ℕ → Outcome) (n : Notifier)
    (p : DiscordPayload) (actions : List Action)
    → ((url body : String)
        → (a : Answer) × (c.post url body ≡ some a) × (is_refusal a.status_code ≡ true))
    → (sends 0).result ≡ (send c p).0
    → (flush s now sends n).sent ≢ n.sent
    → let n' = flush s now sends n in
      ((run s n' actions).disabled ≡ true) × (batches s n' actions ≤ length n.event_ch)
refused_webhook s c now sends n p actions refuses sent changed =
    let (disabled, left) = flush-fatal s now sends n (sent ∙ send-refused c p refuses) changed in
    let (stays, few) = run_disabled s (flush s now sends n) actions disabled in
    (stays, omega (arith, few, left))
