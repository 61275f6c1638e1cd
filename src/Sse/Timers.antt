-- ===== src/Sse/Timers.antt =====
-- The reconnect timer of web/src/hooks/useSSE.ts.
use vrclog_companion.Prelude.{
  ℕ, ◌+◌, ◌≤◌, ◌≡◌, refl, String, Bool, true, false, not, Option, none, some, List, [], ◌∷◌, ◌++◌,
  keep, All, All-append_last, All-keep, arith, ◌==◌, if◌then◌else◌,
}
use vrclog_companion.Sse.{
  Hook, Timer, refresh, reconnect, is_refresh, clear_timeout, cleanup, connect, token_for_connect,
  token_for_refresh, open_source, on_open, on_message, on_error, run_effect, Action, effect,
  effect_cleanup, token_fetched, resync_fetched, opened, message, failed, fired, step, run, initial,
  token_refresh_interval,
}

-- How many of the pending timers reconnect.
abbrev pub reconnects : List Timer → ℕ
reconnects [] = 0
reconnects (t ∷ l) = (if is_refresh t.alarm then 0 else 1) + reconnects l

-- A timer that reconnects is the one in the ref.
abbrev pub IsHeld : Option ℕ → Timer → Type 0
IsHeld ref t = is_refresh t.alarm ≡ false → ref ≡ some t.id

pub record IsTimed (h : Hook) : Type 0 where
  pub one : reconnects h.timers ≤ 1
  pub held : All (IsHeld h.reconnect_timer) h.timers

reconnects-keep-le : (q : Timer → Bool) (l : List Timer) → reconnects (keep q l) ≤ reconnects l
reconnects-keep-le q [] = omega arith
reconnects-keep-le q (t ∷ l) = ground (arith, reconnects-keep-le q l)

reconnects-append :
    (l : List Timer) (t : Timer)
    → reconnects (l ++ t ∷ []) ≡ reconnects l + (if is_refresh t.alarm then 0 else 1)
reconnects-append [] t = ground arith
reconnects-append (u ∷ l) t = ground (arith, reconnects-append l t)

cleared_none :
    (ref : Option ℕ) (l : List Timer) → All (IsHeld ref) l → reconnects (clear_timeout ref l) ≡ 0
cleared_none none [] a = refl
cleared_none none (t ∷ l) a = ground (arith, cleared_none none l a.1)
cleared_none (some id) [] a = refl
cleared_none (some id) (t ∷ l) a = ground (arith, cleared_none (some id) l a.1)

none-IsHeld : (ref : Option ℕ) (l : List Timer) → reconnects l ≡ 0 → All (IsHeld ref) l
none-IsHeld ref [] z = tt
none-IsHeld ref (t ∷ l) z = (λ r. absurd (ground arith), none-IsHeld ref l (ground arith))

IsHeld-clear_timeout :
    (ref other : Option ℕ) (l : List Timer)
    → All (IsHeld ref) l
    → All (IsHeld ref) (clear_timeout other l)
IsHeld-clear_timeout ref none l a = a
IsHeld-clear_timeout ref (some id) l a = All-keep (IsHeld ref) (λ t. not (t.id == id)) l a

-- Cleanup leaves no reconnect pending.
cleanup_none : (h : Hook) → IsTimed h → reconnects (cleanup h).timers ≡ 0
unfolding cleanup
cleanup_none h v =
    cleared_none h.reconnect_timer (clear_timeout h.token_refresh_timer h.timers)
      (IsHeld-clear_timeout h.reconnect_timer h.token_refresh_timer h.timers v.held)

none-IsTimed : (h : Hook) → reconnects h.timers ≡ 0 → IsTimed h
none-IsTimed h z = record { one = omega arith; held = none-IsHeld h.reconnect_timer h.timers z }

connect-IsTimed : (h : Hook) → IsTimed h → IsTimed (connect h)
unfolding connect
connect-IsTimed h v = none-IsTimed _ (cleanup_none h v)

on_error-IsTimed : (h : Hook) → IsTimed h → IsTimed (on_error h)
unfolding on_error
on_error-IsTimed h v =
    let h' : Hook = record h { connected = false } in
    let z : reconnects (cleanup h').timers ≡ 0 =
      cleanup_none h' (record { one = v.one; held = v.held }) in
    let c = cleanup h' in
    let t : Timer = record { id = c.next_id; alarm = reconnect; delay = c.backoff } in
    record {
      one = omega (arith, reconnects-append c.timers t);
      held = All-append_last _ c.timers t (none-IsHeld _ c.timers z) (λ r. refl);
    }

on_open-IsTimed : (h : Hook) → IsTimed h → IsTimed (on_open h)
unfolding on_open
on_open-IsTimed h v =
    let t : Timer = record { id = h.next_id; alarm = refresh; delay = token_refresh_interval } in
    record {
      one = omega (arith, reconnects-append h.timers t, v.one);
      held = All-append_last _ h.timers t v.held (λ r. cc);
    }

-- The same timers and the same ref.
same-IsTimed :
    (h g : Hook)
    → IsTimed h
    → g.timers ≡ h.timers
    → g.reconnect_timer ≡ h.reconnect_timer
    → IsTimed g
same-IsTimed h g v t r = record { one = rw t v.one; held = rw (t, r) v.held }

token_for_connect-IsTimed :
    (task : ℕ) (token : Option String) (h : Hook)
    → IsTimed h
    → IsTimed (token_for_connect task token h)
unfolding token_for_connect
token_for_connect-IsTimed task none h v = same-IsTimed h _ v refl refl
token_for_connect-IsTimed task (some token) h v = same-IsTimed h _ v refl refl

token_for_refresh-IsTimed :
    (task : ℕ) (token : Option String) (h : Hook)
    → IsTimed h
    → IsTimed (token_for_refresh task token h)
unfolding token_for_refresh
token_for_refresh-IsTimed task none h v = same-IsTimed h _ v refl refl
token_for_refresh-IsTimed task (some token) h v = connect-IsTimed _ (same-IsTimed h _ v refl refl)

fired-IsTimed : (h : Hook) (timer : ℕ) → IsTimed h → IsTimed (step h (fired timer))
unfolding step
fired-IsTimed h timer v =
    let q : Timer → Bool = λ t. not (t.id == timer) in
    let dropped : Hook = record h { timers = keep q h.timers } in
    let v' : IsTimed dropped = record {
      one = omega (arith, reconnects-keep-le q h.timers, v.one);
      held = All-keep (IsHeld h.reconnect_timer) q h.timers v.held;
    } in
    ground (arith, connect-IsTimed dropped v')

step-IsTimed : (h : Hook) (a : Action) → IsTimed h → IsTimed (step h a)
unfolding step
step-IsTimed h (effect true) v = unfold run_effect in connect-IsTimed h v
step-IsTimed h (effect false) v = unfold run_effect in none-IsTimed _ (cleanup_none h v)
step-IsTimed h effect_cleanup v = none-IsTimed _ (cleanup_none h v)
step-IsTimed h (token_fetched task token) v =
    ground
      (arith, token_for_connect-IsTimed task token h v, token_for_refresh-IsTimed task token h v)
step-IsTimed h (resync_fetched task state) v =
    unfold open_source in ground (arith, same-IsTimed h (open_source task state h) v refl refl)
step-IsTimed h (opened source) v = ground (arith, on_open-IsTimed h v)
step-IsTimed h (message source id event) v =
    unfold on_message in ground (arith, same-IsTimed h (on_message id event h) v refl refl)
step-IsTimed h (failed source) v = ground (arith, on_error-IsTimed h v)
step-IsTimed h (fired timer) v = fired-IsTimed h timer v

run-IsTimed_from : (h : Hook) (as' : List Action) → IsTimed h → IsTimed (run h as')
unfolding run
run-IsTimed_from h [] v = v
run-IsTimed_from h (a ∷ as') v = run-IsTimed_from (step h a) as' (step-IsTimed h a v)

-- In every run, calls of `connect` that overlap included, at most one reconnect is pending and it is
-- the one in the ref.
pub run-IsTimed : (as' : List Action) → IsTimed (run initial as')
run-IsTimed as' = run-IsTimed_from initial as' (record { one = omega arith; held = tt })

-- So the effect's cleanup, at any point of a run, leaves no reconnect pending.
pub run-cleanup_none :
    (as' : List Action) → reconnects (step (run initial as') effect_cleanup).timers ≡ 0
unfolding step
run-cleanup_none as' = cleanup_none (run initial as') (run-IsTimed as')
