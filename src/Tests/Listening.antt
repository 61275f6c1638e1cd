-- ===== src/Tests/Listening.antt =====
-- A stream that is opened anew, and gets one event from the hub.
use vrclog_companion.Prelude.{◌≡◌, refl, pos, true, String, Option, some, List, [], ◌∷◌, ◌++◌}
use vrclog_companion.Event.{Event}
use vrclog_companion.Store.{encode_cursor}
use vrclog_companion.Api.Hub as Hub
use vrclog_companion.Api.Hub.{
  new_hub, subscribe, publish, offer, handle_broadcast, receive_broadcast, take_event, publishes,
  broadcasts,
}
use vrclog_companion.Api.Stream.{write_sse_event, write_sse_events, replay}
use vrclog_companion.Api.Stream.Open.{
  event_line, comment, elsewhere, receives, beats, receive_event, step, run, open_stream, Action,
}
use vrclog_companion.Api.Stream.Open.Taken.{taken_of}
use vrclog_companion.Api.Stream.Open.Lines.{frames_of, run-frames_of}
use vrclog_companion.Tests.Records.{unary, table, at_time}

abbrev marshal : Event → Option String
marshal e = some "{}"

abbrev session : List Action
session =
    elsewhere (publishes true (some (at_time 3))) ∷ elsewhere broadcasts ∷ beats ∷ receives ∷ []

run-frames_of_example :
    let s = open_stream unary marshal table "" "" (new_hub (pos 0)) in
    let s' = run unary marshal s session in
    (new : List Event) × (taken_of s.id s'.hub.subscribers ≡ taken_of s.id s.hub.subscribers ++ new)
    × (frames_of s'.lines ≡ replay unary marshal table "" "" ++ write_sse_events unary marshal new)
run-frames_of_example = run-frames_of unary marshal table "" "" (new_hub (pos 0)) session

one_event :
    (run unary marshal (open_stream unary marshal table "" "" (new_hub (pos 0))) session).lines
    ≡ comment ": connected"
      ∷ comment ":"
      ∷ event_line (record { id = "III|III"; event = "player_join"; payload = "{}" })
      ∷ []
unfolding open_stream run step receive_event write_sse_event encode_cursor Hub.step subscribe
    publish receive_broadcast handle_broadcast offer take_event replay
one_event = refl
