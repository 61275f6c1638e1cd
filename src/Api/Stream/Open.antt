-- ===== src/Api/Stream/Open.antt =====
-- internal/api/stream.go: the loop of an open stream, over the hub that feeds it.
pub mod Lines
pub mod Taken
use vrclog_companion.Prelude.{
  ℕ, Bool, true, false, String, Option, none, some, List, [], ◌∷◌, ◌++◌, map, any, length, ◌==◌,
  if◌then◌else◌,
}
use vrclog_companion.Event.{Event}
use vrclog_companion.Store.{Formats, EventRow, Select}
use vrclog_companion.Api.Hub as Hub
use vrclog_companion.Api.Hub.{Subscriber, subscribe, unsubscribe, takes}
use vrclog_companion.Api.Stream.{Frame, write_sse_event, replay}

-- What is written: an event, or a comment, which the browser passes over.
pub data Line : Type 0 where
  event_line : Frame → Line
  comment : String → Line

-- A stream is the subscriber `id` of the hub. It is closed when its handler has returned.
pub record Stream : Type 0 where
  pub hub : Hub.Hub
  pub id : ℕ
  pub lines : List Line
  pub is_open : Bool

-- A step of anything else that uses the hub, or a case of the `select`.
pub data Action : Type 0 where
  elsewhere : Hub.Action → Action
  receives : Action
  beats : Action
  disconnects : Action
  sees_done : Action

abbrev pub events_of : ℕ → List Subscriber → List Event
events_of id [] = []
events_of id (s ∷ l) = if s.id == id then s.events else events_of id l

abbrev pub is_closed : ℕ → List Subscriber → Bool
is_closed id l = any (λ s. if s.id == id then s.is_closed else false) l

-- No other handler reads the channel of this stream.
abbrev pub is_own : ℕ → Hub.Action → Bool
is_own id (Hub.takes j) = j == id
is_own id _ = false

-- `return`, with the deferred `Unsubscribe`.
abbrev pub close : Stream → Stream
close s = record s { hub = unsubscribe s.id s.hub; is_open = false }

module _ (f : Formats) (marshal : Event → Option String) where
  -- A case that is not ready cannot be taken.
  unfoldable pub receive_event : Stream → Stream
  receive_event s = elim (events_of s.id s.hub.subscribers) [
    | e ∷ rest ↦ record s {
      hub = Hub.take_of s.id s.hub;
      lines = s.lines ++ map event_line (write_sse_event f marshal e);
    }
    | [] ↦ if is_closed s.id s.hub.subscribers then close s else s
  ]

  unfoldable pub step : Stream → Action → Stream
  step s (elsewhere a) = if is_own s.id a then s else record s { hub = Hub.step s.hub a }
  step s receives = if s.is_open then receive_event s else s
  step s beats = if s.is_open then record s { lines = s.lines ++ comment ":" ∷ [] } else s
  step s disconnects = if s.is_open then close s else s
  step s sees_done =
      if s.is_open then if is_closed s.id s.hub.subscribers then close s else s else s

  unfoldable pub run : Stream → List Action → Stream
  run s [] = s
  run s (a ∷ actions) = run (step s a) actions

  -- `handleStream` up to its loop: the replay, `Subscribe`, and the first comment.
  unfoldable pub open_stream :
      (Select → Option (List EventRow)) → String → String → Hub.Hub → Stream
  open_stream select header query h = record {
    hub = subscribe h;
    id = length h.subscribers;
    lines = map event_line (replay f marshal select header query) ++ comment ": connected" ∷ [];
    is_open = true;
  }
