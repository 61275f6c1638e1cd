-- ===== src/Sse/Backoff.antt =====
-- The delays of web/src/hooks/useSSE.ts: exponential backoff between its bounds.
use native.Mathlib.Decide.{dec_le}
use native.Mathlib.Nat.{one-le-pow, pow-suc}
use vrclog_companion.Prelude.{
  ℕ, ◌+◌, ◌*◌, ◌^◌, ◌≤◌, ◌≡◌, refl, String, Bool, true, false, not, Option, none, some, List, [],
  ◌∷◌, min, All, All-append_last, All-keep, arith, ◌==◌, if◌then◌else◌, keep,
}
use vrclog_companion.Client.{NowResponse, Event}
use vrclog_companion.Sse.{
  Hook, Timer, refresh, reconnect, initial_backoff, max_backoff, token_refresh_interval,
  clear_timeout, cleanup, connect, token_for_connect, token_for_refresh, open_source, on_open,
  on_message, on_error, run_effect, Action, effect, effect_cleanup, token_fetched, resync_fetched,
  opened, message, failed, fired, step, run, initial, is_open,
}

abbrev pub IsDelay : Timer → Type 0
IsDelay t = elim t.alarm [
  | refresh ↦ t.delay ≡ token_refresh_interval
  | reconnect ↦ (initial_backoff ≤ t.delay) × (t.delay ≤ max_backoff)
]

pub record IsBounded (h : Hook) : Type 0 where
  pub lower : initial_backoff ≤ h.backoff
  pub upper : h.backoff ≤ max_backoff
  pub delays : All IsDelay h.timers

All-clear_timeout :
    (ref : Option ℕ) (l : List Timer) → All IsDelay l → All IsDelay (clear_timeout ref l)
All-clear_timeout none l a = a
All-clear_timeout (some id) l a = All-keep IsDelay (λ t. not (t.id == id)) l a

cleanup-IsBounded : (h : Hook) → IsBounded h → IsBounded (cleanup h)
unfolding cleanup
cleanup-IsBounded h b = record {
  lower = b.lower;
  upper = b.upper;
  delays =
      All-clear_timeout h.reconnect_timer (clear_timeout h.token_refresh_timer h.timers)
        (All-clear_timeout h.token_refresh_timer h.timers b.delays);
}

connect-IsBounded : (h : Hook) → IsBounded h → IsBounded (connect h)
unfolding connect
connect-IsBounded h b = ground (arith, cleanup-IsBounded h b)

on_open-IsBounded : (h : Hook) → IsBounded h → IsBounded (on_open h)
unfolding on_open
on_open-IsBounded h b = record {
  lower = omega arith;
  upper = omega arith;
  delays = All-append_last IsDelay h.timers _ b.delays refl;
}

on_error-IsBounded : (h : Hook) → IsBounded h → IsBounded (on_error h)
unfolding on_error
on_error-IsBounded h b =
    let b' : IsBounded (cleanup (record h { connected = false })) =
      cleanup-IsBounded (record h { connected = false })
        (record { lower = b.lower; upper = b.upper; delays = b.delays }) in
    record {
      lower = omega arith;
      upper = omega arith;
      delays = All-append_last IsDelay _ _ b'.delays (b'.lower, b'.upper);
    }

drop-IsBounded :
    (timer : ℕ) (h : Hook)
    → IsBounded h
    → IsBounded (record h { timers = keep (λ t. not (t.id == timer)) h.timers })
drop-IsBounded timer h b = record {
  lower = b.lower;
  upper = b.upper;
  delays = All-keep IsDelay (λ t. not (t.id == timer)) h.timers b.delays;
}

token_for_connect-IsBounded :
    (task : ℕ) (token : Option String) (h : Hook)
    → IsBounded h
    → IsBounded (token_for_connect task token h)
unfolding token_for_connect
token_for_connect-IsBounded task none h b = ground arith
token_for_connect-IsBounded task (some token) h b = ground arith

token_for_refresh-IsBounded :
    (task : ℕ) (token : Option String) (h : Hook)
    → IsBounded h
    → IsBounded (token_for_refresh task token h)
unfolding token_for_refresh
token_for_refresh-IsBounded task none h b = ground arith
token_for_refresh-IsBounded task (some token) h b =
    connect-IsBounded _ (record { lower = b.lower; upper = b.upper; delays = b.delays })

run_effect-IsBounded : (enabled : Bool) (h : Hook) → IsBounded h → IsBounded (run_effect enabled h)
unfolding run_effect
run_effect-IsBounded true h b = connect-IsBounded h b
run_effect-IsBounded false h b = ground (arith, cleanup-IsBounded h b)

open_source-IsBounded :
    (task : ℕ) (state : Option NowResponse) (h : Hook)
    → IsBounded h
    → IsBounded (open_source task state h)
unfolding open_source
open_source-IsBounded task state h b = ground arith

on_message-IsBounded :
    (id : String) (event : Option Event) (h : Hook)
    → IsBounded h
    → IsBounded (on_message id event h)
unfolding on_message
on_message-IsBounded id event h b = ground arith

-- Every callback keeps the bounds.
pub step-IsBounded : (h : Hook) (a : Action) → IsBounded h → IsBounded (step h a)
unfolding step
step-IsBounded h (effect enabled) b = run_effect-IsBounded enabled h b
step-IsBounded h effect_cleanup b = cleanup-IsBounded h b
step-IsBounded h (token_fetched task token) b =
    ground (
      arith,
      token_for_connect-IsBounded task token h b,
      token_for_refresh-IsBounded task token h b,
    )
step-IsBounded h (resync_fetched task state) b =
    ground (arith, open_source-IsBounded task state h b)
step-IsBounded h (opened source) b = ground (arith, on_open-IsBounded h b)
step-IsBounded h (message source id event) b = ground (arith, on_message-IsBounded id event h b)
step-IsBounded h (failed source) b = ground (arith, on_error-IsBounded h b)
step-IsBounded h (fired timer) b = ground (
  arith,
  drop-IsBounded timer h b,
  connect-IsBounded (record h { timers = keep (λ t. not (t.id == timer)) h.timers })
      (drop-IsBounded timer h b),
)

run-IsBounded_from : (h : Hook) (as' : List Action) → IsBounded h → IsBounded (run h as')
unfolding run
run-IsBounded_from h [] b = b
run-IsBounded_from h (a ∷ as') b = run-IsBounded_from (step h a) as' (step-IsBounded h a b)

-- Whatever the order of the callbacks, the backoff stays between one and thirty seconds, each pending
-- reconnect waits that long, and each pending token refresh waits four minutes.
pub run-IsBounded : (as' : List Action) → IsBounded (run initial as')
run-IsBounded as' =
    run-IsBounded_from initial as'
      (record { lower = omega arith; upper = omega arith; delays = tt })

abbrev pub is_opened : Action → Bool
is_opened (opened source) = true
is_opened _ = false

-- The action is an error of a source that is open.
abbrev pub is_failure : Hook → Action → Bool
is_failure h (failed source) = is_open source h.sources
is_failure h _ = false

-- How many errors of open sources a run meets.
pub failures : Hook → List Action → ℕ
failures h [] = 0
failures h (a ∷ as') = (if is_failure h a then 1 else 0) + failures (step h a) as'

backoff-step :
    (h : Hook) (a : Action)
    → is_opened a ≡ false
    → (step h a).backoff ≡ (if is_failure h a then min (h.backoff * 2) max_backoff else h.backoff)
unfolding step run_effect connect cleanup token_for_connect token_for_refresh open_source on_message
    on_error
backoff-step h (effect true) o = refl
backoff-step h (effect false) o = refl
backoff-step h effect_cleanup o = refl
backoff-step h (token_fetched task none) o = ground arith
backoff-step h (token_fetched task (some token)) o = ground arith
backoff-step h (resync_fetched task state) o = ground arith
backoff-step h (opened source) o = cc
backoff-step h (message source id event) o = ground arith
backoff-step h (failed source) o = ground arith
backoff-step h (fired timer) o = ground arith

-- One doubling, cut off at the bound, then a factor p, is twice the factor cut off at the bound.
double_then :
    (b p : ℕ)
    → 1 ≤ p
    → min (min (b * 2) max_backoff * p) max_backoff ≡ min (b * (p * 2)) max_backoff
double_then b p h =
    let le : b * 1 ≤ b * p = grind arith in
    elim (dec_le (b * 2) max_backoff) [
      | yes small ↦ let e : min (b * 2) max_backoff ≡ b * 2 = omega arith in rw e (omega arith)
      | no large ↦ let e : min (b * 2) max_backoff ≡ max_backoff = omega arith in rw e (omega arith)
    ]

-- Until a source opens, k errors of open sources, in any order with any other callbacks, leave the
-- backoff at its start times 2 to the k, cut off at thirty seconds.
pub backoff-run :
    (h : Hook) (as' : List Action)
    → h.backoff ≤ max_backoff
    → All (λ a. is_opened a ≡ false) as'
    → (run h as').backoff ≡ min (h.backoff * 2 ^ failures h as') max_backoff
unfolding run failures
backoff-run h [] u o = ground arith
backoff-run h (a ∷ as') u o =
    let k = failures (step h a) as' in
    ground (
      arith,
      backoff-step h a o.0,
      backoff-run (step h a) as',
      double_then h.backoff (2 ^ k) (one-le-pow k 2 (omega arith)),
      pow-suc 2 k,
    )
