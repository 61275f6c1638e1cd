-- ===== src/Store/Database.antt =====
-- What a database of internal/store/events.go holds and how it answers, as SQLite documents it.
use vrclog_companion.Prelude.{
  ◌^◌, ◌≡◌, ◌≤◌, ◌<◌, Bool, true, not, ◌&&◌, ◌||◌, String, str_eq, is_empty, List, [], ◌∷◌, All,
  keep, take, Option, some, none, ltb, leb, map, at_least, above,
}
use vrclog_companion.Event.{Event, Time}
use vrclog_companion.Api.Events.{QueryFilter, QueryOrder}
use vrclog_companion.Store.{
  Formats, EventRow, Cond, ts_from, ts_until, type_is, after_cursor, before_cursor, Select,
  event_to_row,
}
use vrclog_companion.Store.Codec.{last_time}
use vrclog_companion.Store.Order.{IsSorted}

module _ (text_lt : String → String → Bool) where
  -- What SQLite takes each condition for, with its comparison of texts.
  abbrev pub meets : Cond → EventRow → Bool
  meets (ts_from s) r = not (text_lt r.ts s)
  meets (ts_until s) r = text_lt r.ts s
  meets (type_is t) r = str_eq r.type t
  meets (after_cursor s id) r = text_lt s r.ts || (str_eq r.ts s && not (at_least r.id id))
  meets (before_cursor s id) r = text_lt r.ts s || (str_eq r.ts s && above r.id id)

  abbrev pub meets_all : List Cond → EventRow → Bool
  meets_all [] r = true
  meets_all (c ∷ cs) r = meets c r && meets_all cs r

-- Times that `TimeFormat` can write, and an id of a row.
pub record IsStorable (e : Event) : Type 0 where
  pub ts : e.ts ≤ last_time
  pub ingested_at : e.ingested_at ≤ last_time
  pub id : e.id < 2 ^ 63

-- The database holds the events, `stored` in each order, and answers a statement as SQLite documents it:
-- the first rows of the order that meet every condition. Formatted times compare as the times do.
pub record IsDatabase (f : Formats) (text_lt : String → String → Bool)
    (stored : QueryOrder → List Event) (select : Select → Option (List EventRow)) : Type 0 where
  pub selects :
      (s : Select)
      → select s
        ≡ some (
            take s.limit (keep (meets_all text_lt s.conds) (map (event_to_row f) (stored s.order))))
  pub sorted : (o : QueryOrder) → IsSorted o (stored o)
  pub storable : (o : QueryOrder) → All IsStorable (stored o)
  pub text_order :
      (a b : Time)
      → a ≤ last_time
      → b ≤ last_time
      → text_lt (f.format_time a) (f.format_time b) ≡ ltb a b

-- The condition of the filter on an event.
abbrev pub is_from : Option Time → Event → Bool
is_from none e = true
is_from (some t) e = leb t e.ts

abbrev pub is_until : Option Time → Event → Bool
is_until none e = true
is_until (some t) e = ltb e.ts t

abbrev pub is_of_type : Option String → Event → Bool
is_of_type none e = true
is_of_type (some t) e = is_empty t || str_eq e.type t

abbrev pub wanted : QueryFilter → Event → Bool
wanted q e = is_from q.since e && is_until q.until e && is_of_type q.type e
