-- ===== src/Api/Stream/Open/Lines.antt =====
-- What an open stream of internal/api/stream.go has written: the replay, and what it took from the hub.
use vrclog_companion.Prelude.{
  ◌≡◌, refl, sym, ap, ◌∙◌, Bool, true, false, String, Option, List, [], ◌∷◌, ◌++◌, map, Bool-cases,
  List-cases, inl, inr, if◌then◌else◌,
}
use Prim.Derive.{subst}
use mathlib.Core.List.{append_assoc}
use vrclog_companion.Event.{Event}
use vrclog_companion.Store.{Formats, EventRow, Select}
use vrclog_companion.Api.Hub as Hub
use vrclog_companion.Api.Hub.{
  Subscriber, new_subscriber, subscribe, unsubscribe, publish, offer, handle_broadcast,
  receive_broadcast, stop, take_event, take_of, close_some, subscribes, unsubscribes, publishes,
  broadcasts, stops, takes,
}
use vrclog_companion.Api.Stream.{Frame, write_sse_event, write_sse_events, replay}
use vrclog_companion.Api.Stream.Open.{
  Line, event_line, comment, Stream, Action, elsewhere, receives, beats, disconnects, sees_done,
  events_of, is_closed, is_own, close, receive_event, step, run, open_stream,
}
use vrclog_companion.Api.Stream.Open.Taken.{
  taken_of, taken_of-take_of, unsubscribe-taken_of, step-taken_of,
}

-- The events in what is written.
abbrev pub frames_of : List Line → List Frame
frames_of [] = []
frames_of (event_line frame ∷ lines) = frame ∷ frames_of lines
frames_of (comment text ∷ lines) = frames_of lines

frames_of-append : (xs ys : List Line) → frames_of (xs ++ ys) ≡ frames_of xs ++ frames_of ys
frames_of-append [] ys = refl
frames_of-append (event_line frame ∷ xs) ys = ap (λ l. frame ∷ l) (frames_of-append xs ys)
frames_of-append (comment text ∷ xs) ys = frames_of-append xs ys

frames_of-map : (frames : List Frame) → frames_of (map event_line frames) ≡ frames
frames_of-map [] = refl
frames_of-map (frame ∷ frames) = ap (λ l. frame ∷ l) (frames_of-map frames)

append_empty {ℓ} : {A : Type ℓ} (l : List A) → l ++ [] ≡ l
append_empty [] = refl
append_empty (x ∷ l) = ap (λ m. x ∷ m) (append_empty l)

module _ (f : Formats) (marshal : Event → Option String) where
  -- From one state of a stream to a later one, the events that are written are those that are taken.
  record IsWritten (s s' : Stream) (new : List Event) : Type 0 where
    id : s'.id ≡ s.id
    taken : taken_of s.id s'.hub.subscribers ≡ taken_of s.id s.hub.subscribers ++ new
    written : frames_of s'.lines ≡ frames_of s.lines ++ write_sse_events f marshal new

  unwritten :
      (s s' : Stream)
      → s'.id ≡ s.id
      → taken_of s.id s'.hub.subscribers ≡ taken_of s.id s.hub.subscribers
      → frames_of s'.lines ≡ frames_of s.lines
      → IsWritten s s' []
  unwritten s s' i t w = record {
    id = i;
    taken = t ∙ sym (append_empty _);
    written = w ∙ sym (append_empty _);
  }

  close-IsWritten : (s : Stream) → IsWritten s (close s) []
  close-IsWritten s = unwritten s (close s) refl (unsubscribe-taken_of s.id s.id s.hub) refl

  abbrev IsLater : Stream → Stream → Type 0
  IsLater s s' = (new : List Event) × IsWritten s s' new

  same : (s : Stream) → IsLater s s
  same s = ([], unwritten s s refl refl refl)

  closed : (s : Stream) → IsLater s (close s)
  closed s = ([], close-IsWritten s)

  if_IsLater :
      (b : Bool) (s x y : Stream) → IsLater s x → IsLater s y → IsLater s (if b then x else y)
  if_IsLater true s x y h k = h
  if_IsLater false s x y h k = k

  receive_event-IsLater : (s : Stream) → IsLater s (receive_event f marshal s)
  unfolding receive_event
  receive_event-IsLater s = elim (List-cases (events_of s.id s.hub.subscribers)) [
    | inl e ↦
        let waits : receive_event f marshal s
            ≡ (if is_closed s.id s.hub.subscribers then close s else s) =
          rw (receive_event, e) refl in
        subst (IsLater s) (sym waits)
          (if_IsLater (is_closed s.id s.hub.subscribers) s _ _ (closed s) (same s))
    | inr (e, rest, q) ↦
        let s' : Stream = record s {
          hub = take_of s.id s.hub;
          lines = s.lines ++ map event_line (write_sse_event f marshal e);
        } in
        let took : receive_event f marshal s ≡ s' = rw (receive_event, q) refl in
        subst (IsLater s) (sym took) (
          e ∷ [],
          record {
            id = refl;
            taken = taken_of-take_of s.id s.hub.subscribers e rest q;
            written =
                frames_of-append s.lines _
                ∙ ap (λ l. frames_of s.lines ++ l)
                    (frames_of-map (write_sse_event f marshal e) ∙ sym (append_empty _));
          },
        )
  ]

  step-IsLater : (s : Stream) (a : Action) → IsLater s (step f marshal s a)
  unfolding step
  step-IsLater s (elsewhere a) = elim (Bool-cases (is_own s.id a)) [
    | inl e ↦ rw (step, e) (same s)
    | inr e ↦
        rw (step, e)
          (
            [],
            unwritten s (record s { hub = Hub.step s.hub a }) refl (step-taken_of s.id s.hub a e)
                refl,
          )
  ]
  step-IsLater s receives = if_IsLater s.is_open s _ _ (receive_event-IsLater s) (same s)
  step-IsLater s beats =
      if_IsLater s.is_open s _ _
        (
          [],
          unwritten s (record s { lines = s.lines ++ comment ":" ∷ [] }) refl refl
              (frames_of-append s.lines _ ∙ append_empty _),
        )
        (same s)
  step-IsLater s disconnects = if_IsLater s.is_open s _ _ (closed s) (same s)
  step-IsLater s sees_done =
      if_IsLater s.is_open s _ _
        (if_IsLater (is_closed s.id s.hub.subscribers) s _ _ (closed s) (same s)) (same s)

  write_sse_events-append :
      (a b : List Event)
      → write_sse_events f marshal (a ++ b)
        ≡ write_sse_events f marshal a ++ write_sse_events f marshal b
  write_sse_events-append [] b = refl
  write_sse_events-append (e ∷ a) b =
      ap (λ l. write_sse_event f marshal e ++ l) (write_sse_events-append a b)
      ∙ sym (append_assoc (write_sse_event f marshal e) _ _)

  run-IsLater : (s : Stream) (actions : List Action) → IsLater s (run f marshal s actions)
  unfolding run
  run-IsLater s [] = same s
  run-IsLater s (a ∷ actions) =
      let (new, x) = step-IsLater s a in
      let (more, y) = run-IsLater (step f marshal s a) actions in
      let last = run f marshal (step f marshal s a) actions in
      let taken : taken_of s.id last.hub.subscribers
          ≡ taken_of s.id (step f marshal s a).hub.subscribers ++ more =
        subst
          (λ i.
            taken_of i last.hub.subscribers
            ≡ taken_of i (step f marshal s a).hub.subscribers ++ more)
          x.id y.taken in
      (
        new ++ more,
        record {
          id = y.id ∙ x.id;
          taken = taken ∙ ap (λ l. l ++ more) x.taken ∙ append_assoc _ new more;
          written =
              y.written
              ∙ ap (λ l. l ++ write_sse_events f marshal more) x.written
              ∙ append_assoc _ (write_sse_events f marshal new) _
              ∙ ap (λ l. frames_of s.lines ++ l) (sym (write_sse_events-append new more));
        },
      )

-- A stream that a request opens, with any hub before it, whatever else uses the hub and in any order of
-- the cases: the events that it has written are those of the replay, and then those that its handler
-- has taken from its channel since, each once and in that order, where an event that cannot be
-- written as JSON is left out. Comments and heartbeats carry no event.
pub run-frames_of :
    (f : Formats) (marshal : Event → Option String) (select : Select → Option (List EventRow))
    (header query : String) (h : Hub.Hub) (actions : List Action)
    → let s = open_stream f marshal select header query h in
      let s' = run f marshal s actions in
      (new : List Event) × (taken_of s.id s'.hub.subscribers
        ≡ taken_of s.id s.hub.subscribers ++ new)
      × (frames_of s'.lines
          ≡ replay f marshal select header query ++ write_sse_events f marshal new)
unfolding open_stream
run-frames_of f marshal select header query h actions =
    let s = open_stream f marshal select header query h in
    let (new, x) = run-IsLater f marshal s actions in
    let start : frames_of s.lines ≡ replay f marshal select header query =
      frames_of-append (map event_line (replay f marshal select header query)) _
      ∙ append_empty _
      ∙ frames_of-map (replay f marshal select header query) in
    (new, x.taken, x.written ∙ ap (λ l. l ++ write_sse_events f marshal new) start)
