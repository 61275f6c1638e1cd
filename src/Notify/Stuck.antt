-- ===== src/Notify/Stuck.antt =====
-- What becomes of the queue of internal/notify/notifier.go when a send has to be retried.
use vrclog_companion.Prelude.{
  ℕ, ◌≡◌, ◌<◌, refl, ◌∙◌, true, false, none, some, List, [], ◌∷◌, ◌++◌, ◌≤◌, ◌-◌, suc, arith,
  List-cases, inl, inr, All, ap,
}
use vrclog_companion.Event.{Time}
use vrclog_companion.Derive.{DerivedEvent}
use vrclog_companion.Notify.Queue.{coalesce_queue}
use vrclog_companion.Notify.Loop.{
  cap_queue, Setup, Notifier, Action, enqueues, receives, flushes, fires, stops, enqueue,
  handle_event, flush, receive_event, start_timer, step, run, Outcome,
}

-- The handle is that of a timer that has fired, no other is pending, and no flush is asked for.
pub record IsStuck (n : Notifier) : Type 0 where
  pub held : ℕ
  pub handle : n.timer_handle ≡ some held
  pub no_timers : n.timers ≡ []
  pub no_flush : n.flush_ch ≡ false

-- The action does not stop the notifier.
abbrev pub IsRunning : Action → Type 0
IsRunning (stops now send) = ⊥
IsRunning _ = Unit

start_timer-held :
    (delay : ℕ) (n : Notifier) (id : ℕ) → n.timer_handle ≡ some id → start_timer delay n ≡ n
unfolding start_timer
start_timer-held delay n id h = ground (arith, h)

handle_event-IsStuck :
    (s : Setup) (ev : DerivedEvent) (n : Notifier)
    → IsStuck n
    → IsStuck (handle_event s ev n) × ((handle_event s ev n).sent ≡ n.sent)
unfolding handle_event
handle_event-IsStuck s ev n v =
    let n' : Notifier = record n {
      queue = cap_queue s.max_queue_size (coalesce_queue (n.queue ++ ev ∷ []));
    } in
    rw (start_timer-held s.batch_delay n' v.held v.handle) (
      record { held = v.held; handle = v.handle; no_timers = v.no_timers; no_flush = v.no_flush },
      refl,
    )

pub receive_none : (s : Setup) (n : Notifier) → n.event_ch ≡ [] → receive_event s n ≡ n
unfolding receive_event
receive_none s n e = ground (arith, e)

pub receive_first :
    (s : Setup) (n : Notifier) (ev : DerivedEvent) (rest : List DerivedEvent)
    → n.event_ch ≡ ev ∷ rest
    → receive_event s n ≡ handle_event s ev (record n { event_ch = rest })
unfolding receive_event
receive_first s n ev rest e = ground (arith, e)

receive_event-IsStuck :
    (s : Setup) (n : Notifier)
    → IsStuck n
    → IsStuck (receive_event s n) × ((receive_event s n).sent ≡ n.sent)
receive_event-IsStuck s n v = elim (List-cases n.event_ch) [
  | inl e ↦ rw (receive_none s n e) (v, refl)
  | inr (ev, rest, e) ↦ rw (receive_first s n ev rest e) (
      handle_event-IsStuck s ev (record n { event_ch = rest })
        (record {
          held = v.held;
          handle = v.handle;
          no_timers = v.no_timers;
          no_flush = v.no_flush;
        }))
]

-- A step that is no stop leaves a stuck notifier stuck, and sends nothing.
step-IsStuck :
    (s : Setup) (n : Notifier) (a : Action)
    → IsRunning a
    → IsStuck n
    → IsStuck (step s n a) × ((step s n a).sent ≡ n.sent)
unfolding step enqueue
step-IsStuck s n (enqueues none) r v = (v, refl)
step-IsStuck s n (enqueues (some ev)) r v = ground arith
step-IsStuck s n receives r v = ground (arith, receive_event-IsStuck s n v)
step-IsStuck s n (flushes now send) r v = ground (arith, v.no_flush)
step-IsStuck s n (fires timer) r v = ground (arith, v.no_timers)
step-IsStuck s n (stops now send) r v = absurd r

run-IsStuck :
    (s : Setup) (n : Notifier) (actions : List Action)
    → All IsRunning actions
    → IsStuck n
    → IsStuck (run s n actions) × ((run s n actions).sent ≡ n.sent)
unfolding run
run-IsStuck s n [] r v = (v, refl)
run-IsStuck s n (a ∷ actions) r v =
    let (v', e) = step-IsStuck s n a r.0 v in
    let (v2, e2) = run-IsStuck s (step s n a) actions r.1 v' in (v2, e2 ∙ e)

-- A flush during the backoff, where a handle is held, starts no timer.
flush-waits :
    (s : Setup) (now : Time) (send : ℕ → Outcome) (n : Notifier) (id : ℕ) (ev : DerivedEvent)
    (events : List DerivedEvent)
    → n.queue ≡ ev ∷ events
    → n.timer_handle ≡ some id
    → now < n.backoff_until
    → flush s now send n ≡ n
unfolding flush
flush-waits s now send n id ev events q h b =
    ground (arith, q, b, start_timer-held (n.backoff_until - now) n id h)

-- The batch timer that fires during a backoff.
unfoldable pub wedge : Time → (ℕ → Outcome) → Notifier → List Action
wedge now send n = receives ∷ fires n.next_id ∷ flushes now send ∷ []

-- A notifier that waits after a send that has to be retried, with an empty queue and no timer: when
-- the next event is received and its batch timer fires before the backoff is over, then no event is
-- ever sent again, whatever happens next, short of the notifier being stopped.
pub wedge-IsStuck :
    (s : Setup) (n : Notifier) (ev : DerivedEvent) (events : List DerivedEvent) (now : Time)
    (send : ℕ → Outcome) (actions : List Action)
    → 1 ≤ s.max_queue_size
    → n.event_ch ≡ ev ∷ events
    → n.queue ≡ []
    → n.timer_handle ≡ none
    → n.timers ≡ []
    → n.stopped ≡ false
    → now < n.backoff_until
    → All IsRunning actions
    → IsStuck (run s n (wedge now send n ++ actions))
      × ((run s n (wedge now send n ++ actions)).sent ≡ n.sent)
unfolding wedge run step receive_event handle_event start_timer coalesce_queue
wedge-IsStuck s n ev events now send actions size e q h t live b r =
    let armed : Notifier = record n {
      event_ch = events;
      queue = ev ∷ [];
      timer_handle = some n.next_id;
      timers = (record { id = n.next_id; delay = s.batch_delay }) ∷ [];
      next_id = suc n.next_id;
    } in
    let waiting : Notifier = record armed { timers = []; flush_ch = false } in
    let received : step s n receives ≡ armed = ground (arith, e, q, h, t, live) in
    let fired : step s armed (fires n.next_id) ≡ record armed { timers = []; flush_ch = true } =
      ground arith in
    let flushed : step s (record armed { timers = []; flush_ch = true }) (flushes now send)
        ≡ waiting =
      ground (arith, live, flush-waits s now send waiting n.next_id ev [] refl refl b) in
    let reached : run s n (wedge now send n ++ actions) ≡ run s waiting actions =
      ap (λ m. run s (step s (step s m (fires n.next_id)) (flushes now send)) actions) received
      ∙ ap (λ m. run s (step s m (flushes now send)) actions) fired
      ∙ ap (λ m. run s m actions) flushed in
    rw reached (
      run-IsStuck s waiting actions r
        (record { held = n.next_id; handle = refl; no_timers = refl; no_flush = refl }))
