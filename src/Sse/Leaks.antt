-- ===== src/Sse/Leaks.antt =====
-- What the hook of web/src/hooks/useSSE.ts does when a call of `connect` outlives the state it
-- started from: sources that are never closed, and a hook that stops for good.
use vrclog_companion.Prelude.{
  ℕ, ◌≤◌, ◌<◌, ◌≡◌, refl, ◌≢◌, sym, String, Bool, true, false, not, ◌||◌, Option, none, some, List,
  [], ◌∷◌, ◌++◌, keep, All, arith, ◌==◌,
}
use vrclog_companion.Client.{NowResponse}
use vrclog_companion.Sse.{
  Hook, Source, Task, Await, is_resync_of_connect, close, waits, cleanup, connect,
  token_for_connect, token_for_refresh, open_source, on_open, on_message, on_error, run_effect,
  Action, effect, effect_cleanup, token_fetched, resync_fetched, opened, message, failed, fired,
  step, run, is_open, start_task, new_source,
}

-- An open source that no ref holds. Ids below `next_id` are in use, and are not given out again.
pub record IsOrphan (source : ℕ) (h : Hook) : Type 0 where
  pub is_open_source : is_open source h.sources ≡ true
  pub no_ref : h.event_source ≢ some source
  pub old : source < h.next_id

is_open-close :
    (source : ℕ) (ref : Option ℕ) (l : List Source)
    → ref ≢ some source
    → is_open source l ≡ true
    → is_open source (close ref l) ≡ true
is_open-close source none l n o = o
is_open-close source (some id) [] n o = o
is_open-close source (some id) (s ∷ l) n o = ground (arith, is_open-close source (some id) l n)

is_open-append :
    (source : ℕ) (l : List Source) (s : Source)
    → is_open source (l ++ s ∷ []) ≡ is_open source l || s.id == source
is_open-append source [] s = ground arith
is_open-append source (x ∷ l) s = ground (arith, is_open-append source l s)

module _ (source : ℕ) where
  cleanup-IsOrphan : (h : Hook) → IsOrphan source h → IsOrphan source (cleanup h)
  unfolding cleanup
  cleanup-IsOrphan h o = record {
    is_open_source = is_open-close source h.event_source h.sources o.no_ref o.is_open_source;
    no_ref = λ e. cc;
    old = o.old;
  }

  connect-IsOrphan : (h : Hook) → IsOrphan source h → IsOrphan source (connect h)
  unfolding connect
  connect-IsOrphan h o =
      let c = cleanup-IsOrphan h o in
      record { is_open_source = c.is_open_source; no_ref = c.no_ref; old = omega arith }

  on_error-IsOrphan : (h : Hook) → IsOrphan source h → IsOrphan source (on_error h)
  unfolding on_error cleanup
  on_error-IsOrphan h o = record {
    is_open_source = is_open-close source h.event_source h.sources o.no_ref o.is_open_source;
    no_ref = λ e. cc;
    old = omega arith;
  }

  open_source-IsOrphan :
      (task : ℕ) (state : Option NowResponse) (h : Hook)
      → IsOrphan source h
      → IsOrphan source (open_source task state h)
  unfolding open_source
  open_source-IsOrphan task state h o = record {
    is_open_source = ground (arith, is_open-append source h.sources (new_source h));
    no_ref = λ e. ground arith;
    old = omega arith;
  }

  token_for_connect-IsOrphan :
      (task : ℕ) (token : Option String) (h : Hook)
      → IsOrphan source h
      → IsOrphan source (token_for_connect task token h)
  unfolding token_for_connect
  token_for_connect-IsOrphan task none h o = record {
    is_open_source = o.is_open_source;
    no_ref = o.no_ref;
    old = o.old;
  }
  token_for_connect-IsOrphan task (some token) h o = record {
    is_open_source = o.is_open_source;
    no_ref = o.no_ref;
    old = omega arith;
  }

  -- The fields that decide are the same.
  same-IsOrphan :
      (h g : Hook)
      → IsOrphan source h
      → g.sources ≡ h.sources
      → g.event_source ≡ h.event_source
      → h.next_id ≤ g.next_id
      → IsOrphan source g
  same-IsOrphan h g o s r n = record {
    is_open_source = rw s o.is_open_source;
    no_ref = rw r o.no_ref;
    old = omega arith;
  }

  token_for_refresh-IsOrphan :
      (task : ℕ) (token : Option String) (h : Hook)
      → IsOrphan source h
      → IsOrphan source (token_for_refresh task token h)
  unfolding token_for_refresh
  token_for_refresh-IsOrphan task none h o = same-IsOrphan h _ o refl refl (omega arith)
  token_for_refresh-IsOrphan task (some token) h o =
      connect-IsOrphan _ (same-IsOrphan h _ o refl refl (omega arith))

  run_effect-IsOrphan :
      (enabled : Bool) (h : Hook) → IsOrphan source h → IsOrphan source (run_effect enabled h)
  unfolding run_effect
  run_effect-IsOrphan true h o = connect-IsOrphan h o
  run_effect-IsOrphan false h o =
      same-IsOrphan (cleanup h) _ (cleanup-IsOrphan h o) refl refl (omega arith)

  fired-IsOrphan :
      (h : Hook) (timer : ℕ) → IsOrphan source h → IsOrphan source (step h (fired timer))
  unfolding step
  fired-IsOrphan h timer o =
      let dropped : Hook = record h { timers = keep (λ t. not (t.id == timer)) h.timers } in
      let o' : IsOrphan source dropped = same-IsOrphan h dropped o refl refl (omega arith) in
      ground (
        arith,
        connect-IsOrphan dropped o',
        same-IsOrphan dropped (start_task Await.token_of_refresh dropped) o' refl refl
            (omega arith),
      )

  step-IsOrphan : (h : Hook) (a : Action) → IsOrphan source h → IsOrphan source (step h a)
  unfolding step
  step-IsOrphan h (effect enabled) o = run_effect-IsOrphan enabled h o
  step-IsOrphan h effect_cleanup o = cleanup-IsOrphan h o
  step-IsOrphan h (token_fetched task token) o =
      ground (
        arith,
        token_for_connect-IsOrphan task token h o,
        token_for_refresh-IsOrphan task token h o,
      )
  step-IsOrphan h (resync_fetched task state) o =
      ground (arith, open_source-IsOrphan task state h o)
  step-IsOrphan h (opened s) o =
      unfold on_open in ground (arith, same-IsOrphan h (on_open h) o refl refl (omega arith))
  step-IsOrphan h (message s id event) o =
      unfold on_message in
      ground (arith, same-IsOrphan h (on_message id event h) o refl refl (omega arith))
  step-IsOrphan h (failed s) o = ground (arith, on_error-IsOrphan h o)
  step-IsOrphan h (fired timer) o = fired-IsOrphan h timer o

  -- A source that is open and in no ref stays open and in no ref, whatever callbacks run: neither
  -- the cleanup of the effect nor a reconnect closes it.
  pub run-IsOrphan :
      (h : Hook) (as' : List Action) → IsOrphan source h → IsOrphan source (run h as')
  unfolding run
  run-IsOrphan h [] o = o
  run-IsOrphan h (a ∷ as') o = run-IsOrphan (step h a) as' (step-IsOrphan h a o)

waits-end_other :
    (kind : Await → Bool) (task other : ℕ) (l : List Task)
    → task ≢ other
    → waits kind task l ≡ true
    → waits kind task (keep (λ t. not (t.id == other)) l) ≡ true
waits-end_other kind task other [] n w = w
waits-end_other kind task other (t ∷ l) n w = ground (arith, waits-end_other kind task other l n)

open_source-opens :
    (task : ℕ) (state : Option NowResponse) (h : Hook)
    → is_open h.next_id (open_source task state h).sources ≡ true
unfolding open_source
open_source-opens task state h = ground (arith, is_open-append h.next_id h.sources (new_source h))

open_source-keeps :
    (source task : ℕ) (state : Option NowResponse) (h : Hook)
    → is_open source h.sources ≡ true
    → is_open source (open_source task state h).sources ≡ true
unfolding open_source
open_source-keeps source task state h o =
    ground (arith, is_open-append source h.sources (new_source h))

step-resync :
    (task : ℕ) (state : Option NowResponse) (h : Hook)
    → waits is_resync_of_connect task h.tasks ≡ true
    → step h (resync_fetched task state) ≡ open_source task state h
unfolding step
step-resync task state h w = rw w

-- Two calls of `connect` that both wait for their resync: when both have their answers, the source
-- of the first is open and in no ref.
pub overlap-IsOrphan :
    (h : Hook) (first second : ℕ) (s t : Option NowResponse)
    → first ≢ second
    → waits is_resync_of_connect first h.tasks ≡ true
    → waits is_resync_of_connect second h.tasks ≡ true
    → IsOrphan h.next_id (step (step h (resync_fetched first s)) (resync_fetched second t))
overlap-IsOrphan h first second s t n w w' =
    let g = open_source first s h in
    let still : waits is_resync_of_connect second g.tasks ≡ true =
      unfold open_source in
      waits-end_other is_resync_of_connect second first h.tasks (λ e. n (sym e)) w' in
    rw (step-resync first s h w, step-resync second t g still)
      (record {
        is_open_source = open_source-keeps h.next_id second t g (open_source-opens first s h);
        no_ref = λ e. unfold open_source in ground arith;
        old = unfold open_source in omega arith;
      })

-- The hook has nothing left that could call it back.
pub record IsQuiet (h : Hook) : Type 0 where
  pub no_source : h.sources ≡ []
  pub no_timer : h.timers ≡ []
  pub no_task : h.tasks ≡ []

abbrev pub is_effect : Action → Bool
is_effect (effect enabled) = true
is_effect effect_cleanup = true
is_effect _ = false

step_quiet : (h : Hook) (a : Action) → IsQuiet h → is_effect a ≡ false → step h a ≡ h
unfolding step
step_quiet h (effect enabled) q n = cc
step_quiet h effect_cleanup q n = cc
step_quiet h (token_fetched task token) q n = ground arith
step_quiet h (resync_fetched task state) q n = ground arith
step_quiet h (opened source) q n = ground arith
step_quiet h (message source id event) q n = ground arith
step_quiet h (failed source) q n = ground arith
step_quiet h (fired timer) q n = ground arith

-- A quiet hook stays as it is, until the component runs its effect again.
pub run_quiet :
    (h : Hook) (as' : List Action) → IsQuiet h → All (λ a. is_effect a ≡ false) as' → run h as' ≡ h
unfolding run
run_quiet h [] q n = refl
run_quiet h (a ∷ as') q n = rw (step_quiet h a q n.0) (run_quiet h as' q n.1)

token_failed :
    (h : Hook) (task : ℕ)
    → h.sources ≡ []
    → h.timers ≡ []
    → h.tasks ≡ (record { id = task; await = Await.token_of_connect }) ∷ []
    → let g = step h (token_fetched task none) in
      (g.error ≡ some "Failed to authenticate")
      × (g.reconnecting ≡ h.reconnecting)
      × (g.event_source ≡ h.event_source)
      × IsQuiet g
unfolding step token_for_connect
token_failed h task s t k = ground arith

-- When the token cannot be fetched for a reconnect, and the hook has no other call, source or timer
-- left, the hook stops for good: it shows the error, still says whether it is reconnecting, has no
-- source, timer or call left, and no callback but the effect's changes any of that.
pub token_failed_stops :
    (h : Hook) (task : ℕ) (as' : List Action)
    → h.sources ≡ []
    → h.timers ≡ []
    → h.tasks ≡ (record { id = task; await = Await.token_of_connect }) ∷ []
    → All (λ a. is_effect a ≡ false) as'
    → ((run h (token_fetched task none ∷ as')).error ≡ some "Failed to authenticate")
      × ((run h (token_fetched task none ∷ as')).reconnecting ≡ h.reconnecting)
      × IsQuiet (run h (token_fetched task none ∷ as'))
unfolding run
token_failed_stops h task as' s t k n =
    let g = step h (token_fetched task none) in
    let (e, r, v, q) = token_failed h task s t k in rw (run_quiet g as' q n) (e, r, q)
