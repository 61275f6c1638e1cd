-- ===== src/Sse/Sources.antt =====
-- The event sources of web/src/hooks/useSSE.ts: one at a time, as long as `connect` does not overlap
-- itself.
use vrclog_companion.Prelude.{
  ℕ, ◌≤◌, ◌≡◌, refl, String, Bool, true, false, not, Option, none, some, List, [], ◌∷◌, keep, any,
  All, length, arith, ◌==◌,
}
use vrclog_companion.Client.{NowResponse}
use vrclog_companion.Sse.{
  Hook, Source, Task, Await, is_token_of_connect, is_resync_of_connect, is_token_of_refresh, close,
  waits, cleanup, connect, token_for_connect, token_for_refresh, open_source, on_open, on_message,
  on_error, run_effect, Action, effect, effect_cleanup, token_fetched, resync_fetched, opened,
  message, failed, fired, step, run, initial,
}

-- A call of `connect` waits.
abbrev pub is_connecting : List Task → Bool
is_connecting = any (λ t. not (is_token_of_refresh t.await))

-- Every source in the list is the one in the ref.
abbrev pub IsRef : Option ℕ → List Source → Type 0
IsRef ref = All (λ s. ref ≡ some s.id)

pub record IsSingle (h : Hook) : Type 0 where
  pub one_task : length h.tasks ≤ 1
  pub one_source : length h.sources ≤ 1
  pub is_ref : IsRef h.event_source h.sources
  pub closed : is_connecting h.tasks ≡ true → h.sources ≡ []

-- The effect and the timers come only while no call waits for an answer.
abbrev pub IsOrderly : Hook → Action → Type 0
IsOrderly h (effect enabled) = h.tasks ≡ []
IsOrderly h (fired timer) = h.tasks ≡ []
IsOrderly h _ = Unit

abbrev pub Orderly : Hook → List Action → Type 0
Orderly h [] = Unit
Orderly h (a ∷ as') = IsOrderly h a × Orderly (step h a) as'

pub close_all : (ref : Option ℕ) (l : List Source) → IsRef ref l → close ref l ≡ []
close_all none [] r = refl
close_all none (s ∷ l) r = cc
close_all (some id) [] r = refl
close_all (some id) (s ∷ l) r = ground (arith, close_all (some id) l r.1)

end_only :
    (kind : Await → Bool) (task : ℕ) (l : List Task)
    → length l ≤ 1
    → waits kind task l ≡ true
    → keep (λ t. not (t.id == task)) l ≡ []
end_only kind task [] n w = refl
end_only kind task (t ∷ []) n w = ground arith
end_only kind task (t ∷ u ∷ l) n w = absurd (omega arith)

connecting_of_waits :
    (task : ℕ) (l : List Task) → waits is_token_of_connect task l ≡ true → is_connecting l ≡ true
connecting_of_waits task [] w = cc
connecting_of_waits task (t ∷ l) w = ground (arith, connecting_of_waits task l)

connecting_of_waits_resync :
    (task : ℕ) (l : List Task) → waits is_resync_of_connect task l ≡ true → is_connecting l ≡ true
connecting_of_waits_resync task [] w = cc
connecting_of_waits_resync task (t ∷ l) w = ground (arith, connecting_of_waits_resync task l)

cleanup-IsSingle : (h : Hook) → IsSingle h → IsSingle (cleanup h)
unfolding cleanup
cleanup-IsSingle h v = ground (arith, close_all h.event_source h.sources v.is_ref)

connect-IsSingle : (h : Hook) → IsSingle h → h.tasks ≡ [] → IsSingle (connect h)
unfolding connect cleanup
connect-IsSingle h v n = ground (arith, close_all h.event_source h.sources v.is_ref)

token_for_connect-IsSingle :
    (task : ℕ) (token : Option String) (h : Hook)
    → IsSingle h
    → waits is_token_of_connect task h.tasks ≡ true
    → IsSingle (token_for_connect task token h)
unfolding token_for_connect
token_for_connect-IsSingle task none h v w =
    ground (arith, end_only is_token_of_connect task h.tasks v.one_task w)
token_for_connect-IsSingle task (some token) h v w = ground (
  arith,
  end_only is_token_of_connect task h.tasks v.one_task w,
  connecting_of_waits task h.tasks w,
)

token_for_refresh-IsSingle :
    (task : ℕ) (token : Option String) (h : Hook)
    → IsSingle h
    → waits is_token_of_refresh task h.tasks ≡ true
    → IsSingle (token_for_refresh task token h)
unfolding token_for_refresh connect cleanup
token_for_refresh-IsSingle task none h v w =
    ground (arith, end_only is_token_of_refresh task h.tasks v.one_task w)
token_for_refresh-IsSingle task (some token) h v w = ground (
  arith,
  end_only is_token_of_refresh task h.tasks v.one_task w,
  close_all h.event_source h.sources v.is_ref,
)

open_source-IsSingle :
    (task : ℕ) (state : Option NowResponse) (h : Hook)
    → IsSingle h
    → waits is_resync_of_connect task h.tasks ≡ true
    → IsSingle (open_source task state h)
unfolding open_source
open_source-IsSingle task state h v w = ground (
  arith,
  end_only is_resync_of_connect task h.tasks v.one_task w,
  connecting_of_waits_resync task h.tasks w,
)

on_error-IsSingle : (h : Hook) → IsSingle h → IsSingle (on_error h)
unfolding on_error cleanup
on_error-IsSingle h v = ground (arith, close_all h.event_source h.sources v.is_ref)

run_effect-IsSingle :
    (enabled : Bool) (h : Hook) → IsSingle h → h.tasks ≡ [] → IsSingle (run_effect enabled h)
unfolding run_effect
run_effect-IsSingle true h v n = connect-IsSingle h v n
run_effect-IsSingle false h v n = ground (arith, cleanup-IsSingle h v)

on_open-IsSingle : (h : Hook) → IsSingle h → IsSingle (on_open h)
unfolding on_open
on_open-IsSingle h v = ground arith

fired-IsSingle :
    (h : Hook) (timer : ℕ) → IsSingle h → h.tasks ≡ [] → IsSingle (step h (fired timer))
unfolding step
fired-IsSingle h timer v n =
    let dropped : Hook = record h { timers = keep (λ t. not (t.id == timer)) h.timers } in
    let v' : IsSingle dropped = record {
      one_task = v.one_task;
      one_source = v.one_source;
      is_ref = v.is_ref;
      closed = v.closed;
    } in
    ground (arith, connect-IsSingle dropped v' n)

step-IsSingle : (h : Hook) (a : Action) → IsSingle h → IsOrderly h a → IsSingle (step h a)
unfolding step
step-IsSingle h (effect enabled) v o = run_effect-IsSingle enabled h v o
step-IsSingle h effect_cleanup v o = cleanup-IsSingle h v
step-IsSingle h (token_fetched task token) v o =
    ground
      (arith, token_for_connect-IsSingle task token h v, token_for_refresh-IsSingle task token h v)
step-IsSingle h (resync_fetched task state) v o =
    ground (arith, open_source-IsSingle task state h v)
step-IsSingle h (opened source) v o = ground (arith, on_open-IsSingle h v)
step-IsSingle h (message source id event) v o = unfold on_message in ground arith
step-IsSingle h (failed source) v o = ground (arith, on_error-IsSingle h v)
step-IsSingle h (fired timer) v o = fired-IsSingle h timer v o

pub run-IsSingle_from :
    (h : Hook) (as' : List Action) → IsSingle h → Orderly h as' → IsSingle (run h as')
unfolding run
run-IsSingle_from h [] v o = v
run-IsSingle_from h (a ∷ as') v o = run-IsSingle_from (step h a) as' (step-IsSingle h a v o.0) o.1

-- From the first render on, as long as the effect runs and the timers fire only while no call waits
-- for an answer: at most one call waits, at most one event source is open, it is the one in the ref,
-- and none is open while `connect` is on its way.
pub run-IsSingle : (as' : List Action) → Orderly initial as' → IsSingle (run initial as')
run-IsSingle as' o =
    run-IsSingle_from initial as'
      (record { one_task = omega arith; one_source = omega arith; is_ref = tt; closed = λ c. refl })
      o
