-- ===== src/Store/Stats.antt =====
-- internal/store/stats.go, internal/app/stats.go and internal/api/stats.go: today's numbers.
-- The database runs the three statements of `GetBasicStats`; `none` is its error.
pub mod Picks
pub mod Rows
pub mod Today
use vrclog_companion.Prelude.{ℕ, Bool, true, String, Option, none, some, List, [], ◌∷◌}
use vrclog_companion.Event.{Time, type_player_join, type_player_left, type_world_join}
use vrclog_companion.Client.{StatsResponse}
use vrclog_companion.Api.Events.{QueryOrder, desc}
use vrclog_companion.Store.{Formats, Cond, ts_from, ts_until}

-- `SUM(CASE WHEN type = ? ...)` for three types, over the rows of the conditions.
pub record CountSelect : Type 0 where
  pub first : String
  pub second : String
  pub third : String
  pub conds : List Cond

-- A term of an `ORDER BY`.
pub data OrderTerm : Type 0 where
  by_ts by_id : QueryOrder → OrderTerm

-- `type = ?`, `player_name IS NOT NULL` and `player_name != ...`.
pub data NameCond : Type 0 where
  of_type : String → NameCond
  not_null : NameCond
  not_equal : String → NameCond

-- `SELECT DISTINCT player_name FROM events WHERE ... ORDER BY ... LIMIT ...`.
pub record NameSelect : Type 0 where
  pub distinct : Bool
  pub conds : List NameCond
  pub order : List OrderTerm
  pub limit : ℕ

-- `SELECT ts FROM events ORDER BY ... LIMIT ...`.
pub record TsSelect : Type 0 where
  pub order : List OrderTerm
  pub limit : ℕ

-- The rows that answer each statement, with `none` for a name that is NULL.
pub record StatsDatabase : Type 0 where
  pub counts : CountSelect → Option (ℕ × ℕ × ℕ)
  pub recent : NameSelect → Option (List (Option String))
  pub last : TsSelect → Option (List String)

pub record BasicStats : Type 0 where
  pub join_count : ℕ
  pub leave_count : ℕ
  pub world_change_count : ℕ
  pub recent_players : List String
  pub last_event_at : Option String

abbrev pub count_select : Formats → Time → Time → CountSelect
count_select f since until = record {
  first = type_player_join;
  second = type_player_left;
  third = type_world_join;
  conds = ts_from (f.format_time since) ∷ ts_until (f.format_time until) ∷ [];
}

abbrev pub recent_select : NameSelect
recent_select = record {
  distinct = true;
  conds = of_type type_player_join ∷ not_null ∷ not_equal "" ∷ [];
  order = by_ts desc ∷ [];
  limit = 5;
}

abbrev pub last_select : TsSelect
last_select = record { order = by_ts desc ∷ by_id desc ∷ []; limit = 1 }

abbrev pub append_name : String → Option (List String) → Option (List String)
append_name name none = none
append_name name (some names) = some (name ∷ names)

-- The loop over the rows: a NULL is not read into a `string`.
abbrev pub scan_names : List (Option String) → Option (List String)
scan_names [] = some []
scan_names (none ∷ rows) = none
scan_names (some name ∷ rows) = append_name name (scan_names rows)

-- `QueryRow`, for which no row is no error here.
abbrev pub first_row : List String → Option String
first_row [] = none
first_row (ts ∷ rows) = some ts

abbrev pub read_last : ℕ × ℕ × ℕ → List String → Option (List String) → Option BasicStats
read_last counts names none = none
read_last (joins, leaves, worlds) names (some rows) = some (record {
  join_count = joins;
  leave_count = leaves;
  world_change_count = worlds;
  recent_players = names;
  last_event_at = first_row rows;
})

abbrev pub read_names : StatsDatabase → ℕ × ℕ × ℕ → Option (List String) → Option BasicStats
read_names db counts none = none
read_names db counts (some names) = read_last counts names (db.last last_select)

abbrev pub read_recent :
    StatsDatabase → ℕ × ℕ × ℕ → Option (List (Option String)) → Option BasicStats
read_recent db counts none = none
read_recent db counts (some rows) = read_names db counts (scan_names rows)

abbrev pub read_counts : StatsDatabase → Option (ℕ × ℕ × ℕ) → Option BasicStats
read_counts db none = none
read_counts db (some counts) = read_recent db counts (db.recent recent_select)

-- `Store.GetBasicStats`.
unfoldable pub get_basic_stats : Formats → StatsDatabase → Time → Time → Option BasicStats
get_basic_stats f db since until = read_counts db (db.counts (count_select f since until))

-- `StatsService.GetBasicStats`, whose result is written as JSON. `today` is what `GetTodayBoundary`
-- makes of the clock and the time zone.
abbrev pub stats_result : BasicStats → StatsResponse
stats_result stats = record {
  today_joins = stats.join_count;
  today_leaves = stats.leave_count;
  today_world_changes = stats.world_change_count;
  recent_players = stats.recent_players;
  last_event_at = stats.last_event_at;
}

abbrev pub result_of : Option BasicStats → Option StatsResponse
result_of none = none
result_of (some stats) = some (stats_result stats)

unfoldable pub get_today_stats : Formats → StatsDatabase → Time × Time → Option StatsResponse
get_today_stats f db (since, until) = result_of (get_basic_stats f db since until)

-- The status and the body of `handleStats`.
pub data StatsAnswer : Type 0 where
  internal_error : StatsAnswer
  ok_stats : StatsResponse → StatsAnswer

unfoldable pub handle_stats : Formats → StatsDatabase → Time × Time → StatsAnswer
handle_stats f db today = elim (get_today_stats f db today) [
  | none ↦ internal_error
  | some result ↦ ok_stats result
]
