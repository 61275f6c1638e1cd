-- ===== src/Api/Hub.antt =====
-- internal/api/hub.go: the broadcast of new events to the streams that are open.
-- `clients`, a local of `Run`, is a flag of each subscriber. `register` and `unregister` have no
-- buffer, so handing over and handling are one step. A subscriber keeps, beside its channels, what
-- the code does not store: what its stream has taken from the channel, how many events found it full,
-- and how many events the hub had handled when it was registered.
pub mod Delivery
use vrclog_companion.Prelude.{
  ℕ, zero, suc, ◌+◌, ℤ, pos, negsuc, Bool, true, false, not, ◌&&◌, ◌||◌, Option, none, some, List,
  [], ◌∷◌, ◌++◌, map, any, length, ltb, ◌==◌, if◌then◌else◌,
}
use vrclog_companion.Event.{Event}

abbrev pub default_subscriber_buffer_size : ℕ
default_subscriber_buffer_size = 16

abbrev pub default_broadcast_buffer_size : ℕ
default_broadcast_buffer_size = 64

-- `WithHubSubscriberBufferSize(size)`.
abbrev pub buffer_size_of : ℤ → ℕ
buffer_size_of (pos n) = if n == 0 then default_subscriber_buffer_size else n
buffer_size_of (negsuc n) = default_subscriber_buffer_size

-- `is_closed` is of both channels, which are always closed together.
pub record Subscriber : Type 0 where
  pub id : ℕ
  pub events : List Event
  pub is_closed : Bool
  pub is_client : Bool
  pub taken : List Event
  pub dropped : ℕ
  pub since : ℕ

-- `handled` are the events that were broadcast; `is_panicking` is a send on a closed channel, or a
-- second close.
pub record Hub : Type 0 where
  pub subscriber_buffer_size : ℕ
  pub broadcast : List Event
  pub is_stopped : Bool
  pub subscribers : List Subscriber
  pub handled : List Event
  pub is_panicking : Bool

abbrev pub new_hub : ℤ → Hub
new_hub size = record {
  subscriber_buffer_size = buffer_size_of size;
  broadcast = [];
  is_stopped = false;
  subscribers = [];
  handled = [];
  is_panicking = false;
}

abbrev pub new_subscriber : Bool → Hub → Subscriber
new_subscriber stopped h = record {
  id = length h.subscribers;
  events = [];
  is_closed = stopped;
  is_client = not stopped;
  taken = [];
  dropped = 0;
  since = length h.handled;
}

-- `Subscribe`: a stopped hub gives a closed subscriber.
unfoldable pub subscribe : Hub → Hub
subscribe h = record h { subscribers = h.subscribers ++ new_subscriber h.is_stopped h ∷ [] }

-- `close(sub.done)` and `close(sub.events)`, of the subscribers that the test picks.
abbrev pub close_some : (Subscriber → Bool) → Hub → Hub
close_some test h = record h {
  subscribers =
      map (λ s. if test s then record s { is_closed = true; is_client = false } else s)
        h.subscribers;
  is_panicking = h.is_panicking || any (λ s. test s && s.is_closed) h.subscribers;
}

unfoldable pub unsubscribe : ℕ → Hub → Hub
unsubscribe id h = if h.is_stopped then h else close_some (λ s. s.id == id && s.is_client) h

-- `Publish`. Where the hub has stopped and the channel has room, the `select` may take either case.
unfoldable pub publish : Bool → Option Event → Hub → Hub
publish choice none h = h
publish choice (some e) h =
    if h.is_stopped && choice
    then h
    else if ltb (length h.broadcast) default_broadcast_buffer_size
    then record h { broadcast = h.broadcast ++ e ∷ [] }
    else h

-- A send that does not wait, to a client.
unfoldable pub offer : ℕ → Event → Subscriber → Subscriber
offer size e s =
    if not s.is_client
    then s
    else if ltb (length s.events) size
    then record s { events = s.events ++ e ∷ [] }
    else record s { dropped = suc s.dropped }

unfoldable pub handle_broadcast : Event → Hub → Hub
handle_broadcast e h = record h {
  subscribers = map (offer h.subscriber_buffer_size e) h.subscribers;
  handled = h.handled ++ e ∷ [];
  is_panicking = h.is_panicking || any (λ s. s.is_client && s.is_closed) h.subscribers;
}

-- `case e := <-h.broadcast`.
unfoldable pub receive_broadcast : Hub → Hub
receive_broadcast h = elim h.broadcast [
  | [] ↦ h
  | e ∷ rest ↦ handle_broadcast e (record h { broadcast = rest })
]

-- `case <-h.stop`.
unfoldable pub stop : Hub → Hub
stop h = close_some (λ s. s.is_client) (record h { is_stopped = true })

-- `e, ok := <-sub.Events()` of a stream, where an event is there.
unfoldable pub take_event : Subscriber → Subscriber
take_event s = elim s.events [
  | [] ↦ s
  | e ∷ rest ↦ record s { events = rest; taken = s.taken ++ e ∷ [] }
]

abbrev pub take_of : ℕ → Hub → Hub
take_of id h = record h {
  subscribers = map (λ s. if s.id == id then take_event s else s) h.subscribers;
}

pub data Action : Type 0 where
  subscribes : Action
  unsubscribes : ℕ → Action
  publishes : Bool → Option Event → Action
  broadcasts : Action
  stops : Action
  takes : ℕ → Action

-- The cases of `Run` end with the hub.
unfoldable pub step : Hub → Action → Hub
step h subscribes = subscribe h
step h (unsubscribes id) = unsubscribe id h
step h (publishes choice e) = publish choice e h
step h broadcasts = if h.is_stopped then h else receive_broadcast h
step h stops = if h.is_stopped then h else stop h
step h (takes id) = take_of id h

unfoldable pub run : Hub → List Action → Hub
run h [] = h
run h (a ∷ actions) = run (step h a) actions
