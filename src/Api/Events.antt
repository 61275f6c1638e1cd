-- ===== src/Api/Events.antt =====
-- internal/api/events.go: the query of `GET /api/v1/events`.
pub mod RoundTrip
pub mod Handler
use vrclog_companion.Prelude.{
  ℕ, ℤ, pos, at_least, String, Bool, true, false, ◌||◌, Option, none, some, List, [], ◌∷◌, str_eq,
  is_empty, if◌then◌else◌,
}
use vrclog_companion.Event.{Time, type_player_join, type_player_left, type_world_join}

pub data QueryOrder : Type 0 where
  desc asc : QueryOrder

-- `store.QueryFilter`.
pub record QueryFilter : Type 0 where
  pub since : Option Time
  pub until : Option Time
  pub type : Option String
  pub limit : ℤ
  pub cursor : Option String
  pub order : QueryOrder

-- The zero value, and an error by the parameter that it names.
abbrev pub no_filter : QueryFilter
no_filter = record {
  since = none;
  until = none;
  type = none;
  limit = pos 0;
  cursor = none;
  order = desc;
}

pub data Parsed : Type 0 where
  parsed : QueryFilter → Parsed
  invalid : String → Parsed

infixl 5 ◌>>=◌
abbrev pub ◌>>=◌ : Parsed → (QueryFilter → Parsed) → Parsed
parsed filter >>= f = f filter
invalid name >>= f = invalid name

-- `q.Get(key)`: the first value, "" for a missing key.
abbrev pub get : List (String × String) → String → String
get [] key = ""
get ((k, v) ∷ q) key = if str_eq k key then v else get q key

-- `time.Parse(time.RFC3339, s)` and `strconv.Atoi`; `none` is an error.
module _ (parse_time : String → Option Time) (atoi : String → Option ℤ) where
  unfoldable pub parse_since : String → QueryFilter → Parsed
  parse_since s filter = if is_empty s then parsed filter else elim (parse_time s) [
    | none ↦ invalid "since"
    | some t ↦ parsed (record filter { since = some t })
  ]

  unfoldable pub parse_until : String → QueryFilter → Parsed
  parse_until u filter = if is_empty u then parsed filter else elim (parse_time u) [
    | none ↦ invalid "until"
    | some t ↦ parsed (record filter { until = some t })
  ]

  unfoldable pub parse_type : String → QueryFilter → Parsed
  parse_type t filter =
      if is_empty t
      then parsed filter
      else if str_eq t type_player_join || str_eq t type_player_left || str_eq t type_world_join
      then parsed (record filter { type = some t })
      else invalid "type"

  unfoldable pub parse_limit : String → QueryFilter → Parsed
  parse_limit l filter = if is_empty l then parsed filter else elim (atoi l) [
    | none ↦ invalid "limit"
    | some n ↦ if at_least 1 n then parsed (record filter { limit = n }) else invalid "limit"
  ]

  unfoldable pub parse_cursor : String → QueryFilter → Parsed
  parse_cursor c filter =
      if is_empty c then parsed filter else parsed (record filter { cursor = some c })

  unfoldable pub parse_events_filter : List (String × String) → Parsed
  parse_events_filter q =
      parse_since (get q "since") no_filter
      >>= parse_until (get q "until")
      >>= parse_type (get q "type")
      >>= parse_limit (get q "limit")
      >>= parse_cursor (get q "cursor")
