-- ===== src/Api/Events/Handler.antt =====
-- internal/api/events.go: the answer of `GET /api/v1/events`. A bad request names the parameter that is
-- at fault, which stands for its text.
use vrclog_companion.Prelude.{ℤ, String, Option, none, some, List, map}
use vrclog_companion.Event.{Time}
use vrclog_companion.Client.{EventsResponse, Nullable, undefined, value}
use vrclog_companion.Api.Events.{parsed, invalid, parse_events_filter}
use vrclog_companion.Store.{
  Formats, Select, EventRow, QueryResult, query_events, query_ok, query_err, StoreError,
  invalid_cursor,
}
use vrclog_companion.Now.Json.{event_json}

pub data Answer : Type 0 where
  bad_request : String → Answer
  internal_error : Answer
  events_ok : QueryResult → Answer

abbrev pub error_answer : StoreError → Answer
error_answer invalid_cursor = bad_request "cursor"
error_answer _ = internal_error

module _ (parse_time : String → Option Time) (atoi : String → Option ℤ) (f : Formats)
    (select : Select → Option (List EventRow)) where
  unfoldable pub handle_events : List (String × String) → Answer
  handle_events query = elim (parse_events_filter parse_time atoi query) [
    | invalid name ↦ bad_request name
    | parsed filter ↦ elim (query_events f select filter) [
      | query_ok r ↦ events_ok r
      | query_err x ↦ error_answer x
    ]
  ]

-- `omitempty`: no next cursor is no field.
abbrev pub next_cursor_json : Option String → Nullable String
next_cursor_json none = undefined
next_cursor_json (some c) = value c

-- The body, where `iso` is the JSON form of a time.
abbrev pub response_json : (Time → String) → QueryResult → EventsResponse
response_json iso r = record {
  items = map (event_json iso) r.items;
  next_cursor = next_cursor_json r.next_cursor;
}
