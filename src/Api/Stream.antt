-- ===== src/Api/Stream.antt =====
-- internal/api/stream.go: what `handleStream` writes before it listens to the hub.
-- A write to the response is a frame; the headers, the comments and the heartbeat carry no event.
pub mod Open
pub mod Replay
use vrclog_companion.Prelude.{
  ℕ, zero, suc, ℤ, pos, String, Bool, Option, none, some, List, [], ◌∷◌, ◌++◌, is_empty,
  if◌then◌else◌,
}
use vrclog_companion.Event.{Event}
use vrclog_companion.Api.Events.{QueryFilter, asc, no_filter}
use vrclog_companion.Store.{
  Formats, Select, EventRow, encode_cursor, query_events, query_ok, query_err,
}

abbrev pub missed_events_page_size : ℕ
missed_events_page_size = 100

abbrev pub missed_events_max_pages : ℕ
missed_events_max_pages = 5

-- The lines of one event.
pub record Frame : Type 0 where
  pub id : String
  pub event : String
  pub payload : String

-- The header, or else the query parameter.
abbrev pub last_event_id_of : String → String → String
last_event_id_of header query = if is_empty header then query else header

-- `json.Marshal`; `none` is an error.
module _ (f : Formats) (marshal : Event → Option String) where
  unfoldable pub write_sse_event : Event → List Frame
  write_sse_event e = elim (marshal e) [
    | none ↦ []
    | some payload ↦
        (record { id = encode_cursor f e.ts e.id; event = e.type; payload = payload }) ∷ []
  ]

  abbrev pub write_sse_events : List Event → List Frame
  write_sse_events [] = []
  write_sse_events (e ∷ items) = write_sse_event e ++ write_sse_events items

abbrev pub missed_filter : String → QueryFilter
missed_filter last_event_id = record no_filter {
  cursor = some last_event_id;
  limit = pos missed_events_page_size;
  order = asc;
}

module _ (f : Formats) (marshal : Event → Option String)
    (select : Select → Option (List EventRow)) where
  -- The loop over the pages, with the pages that are left.
  unfoldable pub missed_loop : ℕ → QueryFilter → List Frame
  missed_loop zero filter = []
  missed_loop (suc pages) filter = elim (query_events f select filter) [
    | query_err x ↦ []
    | query_ok r ↦ elim r.next_cursor [
      | none ↦ write_sse_events f marshal r.items
      | some c ↦
          write_sse_events f marshal r.items
          ++ missed_loop pages (record filter { cursor = some c })
    ]
  ]

  unfoldable pub send_missed_events : String → List Frame
  unfolding missed_loop
  send_missed_events last_event_id =
      missed_loop missed_events_max_pages (missed_filter last_event_id)

  -- `handleStream`, up to `Subscribe`.
  unfoldable pub replay : String → String → List Frame
  unfolding send_missed_events
  replay header query =
      let last_event_id = last_event_id_of header query in
      if is_empty last_event_id then [] else send_missed_events last_event_id
