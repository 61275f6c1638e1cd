-- ===== src/Tests/Stream.antt =====
-- The event stream hook (web/src/hooks/useSSE.ts): a connection, an error and a reconnect.
use vrclog_companion.Prelude.{◌≡◌, refl, none, some, List, [], ◌∷◌, ◌++◌, arith, true}
use vrclog_companion.Sse.{
  Hook, Action, effect, effect_cleanup, token_fetched, resync_fetched, opened, message, failed,
  fired, initial, cleanup, connect, token_for_connect, token_for_refresh, open_source, on_open,
  on_message, on_error, run_effect, step, run,
}
use vrclog_companion.Sse.Timers.{IsTimed, reconnects, run-IsTimed, run-cleanup_none}
use vrclog_companion.Sse.Sources.{IsSingle, run-IsSingle}
use vrclog_companion.Sse.Leaks.{IsOrphan, IsQuiet, overlap-IsOrphan, token_failed_stops}
use vrclog_companion.Sse.Resume.{last_received, open-resumes}

program : Unit {0}
unfolding cleanup connect token_for_connect token_for_refresh open_source on_open on_message
    on_error run_effect step run
program = tt

-- Connect, open, read a message, fail, reconnect up to the resync.
abbrev session : List Action
session =
    effect true
    ∷ token_fetched 1 (some "tok")
    ∷ resync_fetched 2 none
    ∷ opened 3
    ∷ message 3 "evt9" none
    ∷ failed 3
    ∷ fired 5
    ∷ token_fetched 6 (some "tok2")
    ∷ []

session_resumes :
    (run initial (session ++ resync_fetched 7 none ∷ [])).sources
    ≡ (record { id = 8; url_token = some "tok2"; url_last_event_id = some "evt9" }) ∷ []
unfolding program
session_resumes = refl

session_backoff : (run initial session).backoff ≡ 2000
unfolding program
session_backoff = refl

run-IsSingle_example : IsSingle (run initial session)
unfolding program
run-IsSingle_example = run-IsSingle session (refl, (tt, (tt, (tt, (tt, (tt, (refl, (tt, tt))))))))

run-IsTimed_example : IsTimed (run initial session)
run-IsTimed_example = run-IsTimed session

run-cleanup_none_example : reconnects (step (run initial session) effect_cleanup).timers ≡ 0
run-cleanup_none_example = run-cleanup_none session

-- Errors of the second source, with nothing opened since.
abbrev retry : List Action
retry = resync_fetched 7 none ∷ failed 8 ∷ []

open-resumes_example :
    (step (run initial session) (resync_fetched 7 none)).sources
    ≡ (run initial session).sources
      ++ (record {
        id = (run initial session).next_id;
        url_token = (run initial session).token;
        url_last_event_id = last_received none initial session;
      })
        ∷ []
unfolding program
open-resumes_example = open-resumes session 7 none refl

-- The effect runs again while the first call waits for its resync.
abbrev overlap : Hook
overlap =
    run initial
      (effect true ∷ token_fetched 1 (some "a") ∷ effect true ∷ token_fetched 3 (some "b") ∷ [])

overlap-IsOrphan_example :
    IsOrphan overlap.next_id (step (step overlap (resync_fetched 2 none)) (resync_fetched 4 none))
unfolding program
overlap-IsOrphan_example = overlap-IsOrphan overlap 2 4 none none (λ e. omega arith) refl refl

-- The reconnect after an error, before its token.
abbrev reconnecting : Hook
reconnecting =
    run initial
      (effect true ∷ token_fetched 1 (some "a") ∷ resync_fetched 2 none ∷ failed 3 ∷ fired 4 ∷ [])

token_failed_stops_example :
    ((run reconnecting (token_fetched 5 none ∷ fired 4 ∷ [])).error ≡ some "Failed to authenticate")
    × ((run reconnecting (token_fetched 5 none ∷ fired 4 ∷ [])).reconnecting
        ≡ reconnecting.reconnecting)
    × IsQuiet (run reconnecting (token_fetched 5 none ∷ fired 4 ∷ []))
unfolding program
token_failed_stops_example =
    token_failed_stops reconnecting 5 (fired 4 ∷ []) refl refl refl (refl, tt)
