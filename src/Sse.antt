-- ===== src/Sse.antt =====
-- web/src/hooks/useSSE.ts: the hook that keeps the event stream open.
-- A ref and a `useState` value are fields. What the browser holds for the hook is kept beside them:
-- the event sources that are open, the timers that are pending, and the async calls that wait for an
-- answer. One step is one callback, run to its next `await`; the browser picks the order of the steps.
pub mod Backoff
pub mod Timers
pub mod Sources
pub mod Leaks
pub mod Resume
use vrclog_companion.Prelude.{
  ℕ, suc, ◌+◌, ◌*◌, String, Bool, true, false, not, ◌&&◌, Option, none, some, List, [], ◌∷◌, ◌++◌,
  keep, any, min, ◌==◌, is_empty, is_truthy, if◌then◌else◌,
}
use vrclog_companion.Client.{NowResponse, Event}

abbrev pub token_refresh_interval : ℕ
token_refresh_interval = 4 * 60 * 1000

abbrev pub max_backoff : ℕ
max_backoff = 30000

abbrev pub initial_backoff : ℕ
initial_backoff = 1000

-- An open `EventSource`, with the parameters of its URL.
pub record Source : Type 0 where
  pub id : ℕ
  pub url_token : Option String
  pub url_last_event_id : Option String

pub data Alarm : Type 0 where
  refresh reconnect : Alarm

-- A pending `setTimeout`.
pub record Timer : Type 0 where
  pub id : ℕ
  pub alarm : Alarm
  pub delay : ℕ

-- Where an async call waits: `connect` at `fetchAndSetToken` or at `resync`, and the callback of the
-- refresh timer at `fetchAndSetToken`.
pub data Await : Type 0 where
  token_of_connect resync_of_connect token_of_refresh : Await

pub record Task : Type 0 where
  pub id : ℕ
  pub await : Await

-- A call of a prop of the page.
pub data Call : Type 0 where
  on_event : Event → Call
  on_state_update : NowResponse → Call

pub record Hook : Type 0 where
  pub connected : Bool
  pub error : Option String
  pub reconnecting : Bool
  pub event_source : Option ℕ
  pub token : Option String
  pub token_refresh_timer : Option ℕ
  pub reconnect_timer : Option ℕ
  pub backoff : ℕ
  pub last_event_id : Option String
  pub sources : List Source
  pub timers : List Timer
  pub tasks : List Task
  pub next_id : ℕ
  pub calls : List Call

-- The first render. The ids that the browser gives out are positive.
abbrev pub initial : Hook
initial = record {
  connected = false;
  error = none;
  reconnecting = false;
  event_source = none;
  token = none;
  token_refresh_timer = none;
  reconnect_timer = none;
  backoff = initial_backoff;
  last_event_id = none;
  sources = [];
  timers = [];
  tasks = [];
  next_id = 1;
  calls = [];
}

-- `es.close()` and `clearTimeout(id)`, where the ref holds an id.
abbrev pub close : Option ℕ → List Source → List Source
close none l = l
close (some id) l = keep (λ s. not (s.id == id)) l

abbrev pub clear_timeout : Option ℕ → List Timer → List Timer
clear_timeout none l = l
clear_timeout (some id) l = keep (λ t. not (t.id == id)) l

unfoldable pub cleanup : Hook → Hook
cleanup h = record h {
  sources = close h.event_source h.sources;
  event_source = none;
  timers = clear_timeout h.reconnect_timer (clear_timeout h.token_refresh_timer h.timers);
  token_refresh_timer = none;
  reconnect_timer = none;
}

abbrev pub start_task : Await → Hook → Hook
start_task await h = record h {
  tasks = h.tasks ++ (record { id = h.next_id; await = await }) ∷ [];
  next_id = suc h.next_id;
}

abbrev pub end_task : ℕ → Hook → Hook
end_task task h = record h { tasks = keep (λ t. not (t.id == task)) h.tasks }

-- `connect`, up to its first `await`.
unfoldable pub connect : Hook → Hook
connect h = start_task token_of_connect (record (cleanup h) { error = none })

abbrev pub is_token_of_connect : Await → Bool
is_token_of_connect token_of_connect = true
is_token_of_connect _ = false

abbrev pub is_resync_of_connect : Await → Bool
is_resync_of_connect resync_of_connect = true
is_resync_of_connect _ = false

abbrev pub is_token_of_refresh : Await → Bool
is_token_of_refresh token_of_refresh = true
is_token_of_refresh _ = false

abbrev pub waits : (Await → Bool) → ℕ → List Task → Bool
waits kind task = any (λ t. t.id == task && kind t.await)

-- `connect` after `fetchAndSetToken`: `none` is a failed fetch.
unfoldable pub token_for_connect : ℕ → Option String → Hook → Hook
token_for_connect task none h = record (end_task task h) { error = some "Failed to authenticate" }
token_for_connect task (some token) h =
    start_task resync_of_connect (record (end_task task h) { token = some token })

-- The callback of the refresh timer after `fetchAndSetToken`.
unfoldable pub token_for_refresh : ℕ → Option String → Hook → Hook
token_for_refresh task none h = end_task task h
token_for_refresh task (some token) h = connect (record (end_task task h) { token = some token })

abbrev pub call_state_update : Option NowResponse → List Call → List Call
call_state_update none calls = calls
call_state_update (some state) calls = calls ++ on_state_update state ∷ []

abbrev pub if_truthy : Option String → Option String
if_truthy o = if is_truthy o then o else none

-- The new event source: its URL has the token, and the last event id if there is one.
abbrev pub new_source : Hook → Source
new_source h = record {
  id = h.next_id;
  url_token = h.token;
  url_last_event_id = if_truthy h.last_event_id;
}

-- `connect` after `resync`, whose fetch gave a state or failed.
unfoldable pub open_source : ℕ → Option NowResponse → Hook → Hook
open_source task state h = record (end_task task h) {
  calls = call_state_update state h.calls;
  sources = h.sources ++ new_source h ∷ [];
  event_source = some h.next_id;
  next_id = suc h.next_id;
}

-- `es.onopen`.
unfoldable pub on_open : Hook → Hook
on_open h = record h {
  connected = true;
  reconnecting = false;
  error = none;
  backoff = initial_backoff;
  timers =
      h.timers ++ (record { id = h.next_id; alarm = refresh; delay = token_refresh_interval }) ∷ [];
  token_refresh_timer = some h.next_id;
  next_id = suc h.next_id;
}

abbrev pub call_event : Option Event → List Call → List Call
call_event none calls = calls
call_event (some event) calls = calls ++ on_event event ∷ []

-- `handleEvent`, for a message with its id, "" for none, and what `JSON.parse` makes of its data.
unfoldable pub on_message : String → Option Event → Hook → Hook
on_message id event h = record h {
  last_event_id = if is_empty id then h.last_event_id else some id;
  calls = call_event event h.calls;
}

-- `es.onerror`.
unfoldable pub on_error : Hook → Hook
on_error h =
    let c = cleanup (record h { connected = false }) in
    record c {
      reconnecting = true;
      backoff = min (c.backoff * 2) max_backoff;
      timers = c.timers ++ (record { id = c.next_id; alarm = reconnect; delay = c.backoff }) ∷ [];
      reconnect_timer = some c.next_id;
      next_id = suc c.next_id;
    }

abbrev pub drop_timer : ℕ → Hook → Hook
drop_timer timer h = record h { timers = keep (λ t. not (t.id == timer)) h.timers }

abbrev pub is_refresh : Alarm → Bool
is_refresh refresh = true
is_refresh reconnect = false

abbrev pub is_open : ℕ → List Source → Bool
is_open source = any (λ s. s.id == source)

abbrev pub is_pending : (Alarm → Bool) → ℕ → List Timer → Bool
is_pending kind timer = any (λ t. t.id == timer && kind t.alarm)

-- The effect's body, for its `enabled`.
unfoldable pub run_effect : Bool → Hook → Hook
run_effect true h = connect h
run_effect false h = record (cleanup h) { connected = false }

pub data Action : Type 0 where
  effect : Bool → Action
  effect_cleanup : Action
  token_fetched : ℕ → Option String → Action
  resync_fetched : ℕ → Option NowResponse → Action
  opened : ℕ → Action
  message : ℕ → String → Option Event → Action
  failed : ℕ → Action
  fired : ℕ → Action

-- One callback. An action whose task, source or timer is not there cannot happen, and does nothing.
unfoldable pub step : Hook → Action → Hook
step h (effect enabled) = run_effect enabled h
step h effect_cleanup = cleanup h
step h (token_fetched task token) =
    if waits is_token_of_connect task h.tasks
    then token_for_connect task token h
    else if waits is_token_of_refresh task h.tasks
    then token_for_refresh task token h
    else h
step h (resync_fetched task state) =
    if waits is_resync_of_connect task h.tasks then open_source task state h else h
step h (opened source) = if is_open source h.sources then on_open h else h
step h (message source id event) = if is_open source h.sources then on_message id event h else h
step h (failed source) = if is_open source h.sources then on_error h else h
step h (fired timer) =
    if is_pending is_refresh timer h.timers
    then start_task token_of_refresh (drop_timer timer h)
    else if is_pending (λ a. not (is_refresh a)) timer h.timers
    then connect (drop_timer timer h)
    else h

unfoldable pub run : Hook → List Action → Hook
run h [] = h
run h (a ∷ as') = run (step h a) as'
