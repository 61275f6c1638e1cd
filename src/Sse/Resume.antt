-- ===== src/Sse/Resume.antt =====
-- How web/src/hooks/useSSE.ts resumes the stream after a reconnect: the last event id.
use vrclog_companion.Prelude.{
  ℕ, ◌≡◌, refl, String, true, false, Option, none, some, List, [], ◌∷◌, ◌++◌, arith, is_empty,
  is_truthy, if◌then◌else◌,
}
use vrclog_companion.Client.{NowResponse}
use vrclog_companion.Sse.{
  Hook, cleanup, connect, token_for_connect, token_for_refresh, open_source, on_open, on_message,
  on_error, run_effect, Action, effect, effect_cleanup, token_fetched, resync_fetched, opened,
  message, failed, fired, step, run, initial, is_open, waits, is_resync_of_connect,
}

-- The id of a message that an open source delivers, if it has one.
abbrev pub received_id : Hook → Action → Option String
received_id h (message source id event) =
    if is_open source h.sources then (if is_empty id then none else some id) else none
received_id h _ = none

abbrev later : Option String → Option String → Option String
later old none = old
later old (some id) = some id

-- The last id that a run receives, and `old` if it receives none.
abbrev pub last_received : Option String → Hook → List Action → Option String
last_received old h [] = old
last_received old h (a ∷ as') = last_received (later old (received_id h a)) (step h a) as'

last_event_id-step :
    (h : Hook) (a : Action) → (step h a).last_event_id ≡ later h.last_event_id (received_id h a)
unfolding step run_effect connect cleanup token_for_connect token_for_refresh open_source on_open
    on_message on_error
last_event_id-step h (effect true) = refl
last_event_id-step h (effect false) = refl
last_event_id-step h effect_cleanup = refl
last_event_id-step h (token_fetched task none) = ground arith
last_event_id-step h (token_fetched task (some token)) = ground arith
last_event_id-step h (resync_fetched task state) = ground arith
last_event_id-step h (opened source) = ground arith
last_event_id-step h (message source id event) = ground arith
last_event_id-step h (failed source) = ground arith
last_event_id-step h (fired timer) = ground arith

last_event_id-run :
    (h : Hook) (as' : List Action) → (run h as').last_event_id ≡ last_received h.last_event_id h as'
unfolding run
last_event_id-run h [] = refl
last_event_id-run h (a ∷ as') = rw (← last_event_id-step h a) (last_event_id-run (step h a) as')

received-nonempty :
    (old : Option String) (h : Hook) (as' : List Action)
    → (if is_truthy old then old else none) ≡ old
    → (if is_truthy (last_received old h as') then last_received old h as' else none)
      ≡ last_received old h as'
received-nonempty old h [] e = e
received-nonempty old h (a ∷ as') e =
    received-nonempty (later old (received_id h a)) (step h a) as' (still old a e)
  where
    still :
        (old : Option String) (a : Action)
        → (if is_truthy old then old else none) ≡ old
        → (if is_truthy (later old (received_id h a)) then later old (received_id h a) else none)
          ≡ later old (received_id h a)
    still old (message source id event) e = ground arith
    still old a e = e

-- A reconnect resumes where the stream stopped: the source that `connect` opens, after any run, has
-- in its URL the id of the last message with an id that any open source delivered, and the token in
-- the ref. The sources that were open stay open.
pub open-resumes :
    (as' : List Action) (task : ℕ) (state : Option NowResponse)
    → waits is_resync_of_connect task (run initial as').tasks ≡ true
    → (step (run initial as') (resync_fetched task state)).sources
      ≡ (run initial as').sources
        ++ (record {
          id = (run initial as').next_id;
          url_token = (run initial as').token;
          url_last_event_id = last_received none initial as';
        })
          ∷ []
unfolding step open_source
open-resumes as' task state w =
    rw w (rw (last_event_id-run initial as', received-nonempty none initial as' refl))
