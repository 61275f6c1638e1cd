-- ===== src/Store.antt =====
-- internal/store/events.go, cursor.go and row.go: the events table and its queries.
-- The database runs the statement that the code builds; `none` is an error of it.
pub mod Codec
pub mod Insert
pub mod Order
pub mod Database
pub mod Conditions
pub mod Answers
pub mod Pages
pub mod Stats
use Prim.Native.String.{◌++◌ as append}
use vrclog_companion.Prelude.{
  ℕ, suc, ◌+◌, ◌-◌, ℤ, negsuc, pos, at_least, above, String, Bool, true, false, not, ◌&&◌, ◌||◌,
  Option, none, some, List, [], ◌∷◌, ◌++◌, length, ltb, ◌==◌, is_empty, text_or_empty, is_truthy,
  if◌then◌else◌, take, get_elem?,
}
use vrclog_companion.Event.{Event, Time}
use vrclog_companion.Api.Events.{QueryFilter, QueryOrder, desc, asc}

abbrev pub default_limit : ℕ
default_limit = 100

abbrev pub max_limit : ℕ
max_limit = 500

-- `time.Time.Format` and `time.Parse` for `TimeFormat`, `%d` and `strconv.ParseInt`, the encodings of
-- `encoding/base64`, and `strings.Cut` at "|". `none` is an error, or a text with no separator.
pub record Formats : Type 0 where
  pub format_time : Time → String
  pub parse_time : String → Option Time
  pub format_int : ℕ → String
  pub parse_int : String → Option ℤ
  pub raw_url_encode : String → String
  pub raw_url_decode : String → Option String
  pub std_decode : String → Option String
  pub cut : String → Option (String × String)

-- `eventRow`; a `sql.NullString` that is not valid is `none`.
pub record EventRow : Type 0 where
  pub id : ℕ
  pub ts : String
  pub type : String
  pub player_name : Option String
  pub player_id : Option String
  pub world_id : Option String
  pub world_name : Option String
  pub instance_id : Option String
  pub meta_json : Option String
  pub dedupe_key : String
  pub ingested_at : String
  pub schema_version : ℕ

pub data StoreError : Type 0 where
  no_type no_dedupe_key no_ts no_ingested_at invalid_cursor database scan : StoreError

unfoldable pub validate_event : Event → Option StoreError
validate_event e =
    if is_empty e.type
    then some no_type
    else if is_empty e.dedupe_key
    then some no_dedupe_key
    else if e.ts == 0
    then some no_ts
    else if e.ingested_at == 0
    then some no_ingested_at
    else none

pub record QueryResult : Type 0 where
  pub items : List Event
  pub next_cursor : Option String

-- One `AND` of the `WHERE` clause, with its arguments.
pub data Cond : Type 0 where
  ts_from : String → Cond
  ts_until : String → Cond
  type_is : String → Cond
  after_cursor : String → ℤ → Cond
  before_cursor : String → ℤ → Cond

-- The statement that `QueryEvents` builds: rows of `events` that meet every condition, by `ts` and `id`
-- in the order, as many as the limit.
pub record Select : Type 0 where
  pub conds : List Cond
  pub order : QueryOrder
  pub limit : ℕ

unfoldable pub effective_limit : ℤ → ℕ
effective_limit (pos n) = if n == 0 then default_limit else if ltb max_limit n then max_limit else n
effective_limit _ = default_limit

module _ (f : Formats) where
  unfoldable pub to_event : EventRow → Option Event
  to_event r = elim (f.parse_time r.ts) [
    | none ↦ none
    | some ts ↦ elim (f.parse_time r.ingested_at) [
      | none ↦ none
      | some ingested_at ↦ some (record {
        id = r.id;
        ts = ts;
        type = r.type;
        player_name = r.player_name;
        player_id = r.player_id;
        world_id = r.world_id;
        world_name = r.world_name;
        instance_id = r.instance_id;
        meta_json = text_or_empty r.meta_json;
        dedupe_key = r.dedupe_key;
        ingested_at = ingested_at;
        schema_version = r.schema_version;
      })
    ]
  ]

  unfoldable pub event_to_row : Event → EventRow
  event_to_row e = record {
    id = e.id;
    ts = f.format_time e.ts;
    type = e.type;
    player_name = e.player_name;
    player_id = e.player_id;
    world_id = e.world_id;
    world_name = e.world_name;
    instance_id = e.instance_id;
    meta_json = if is_empty e.meta_json then none else some e.meta_json;
    dedupe_key = e.dedupe_key;
    ingested_at = f.format_time e.ingested_at;
    schema_version = e.schema_version;
  }

  unfoldable pub encode_cursor : Time → ℕ → String
  encode_cursor t id = f.raw_url_encode (append (f.format_time t) (append "|" (f.format_int id)))

  -- The bytes, by the first encoding that reads them.
  abbrev pub decode_base64 : String → Option String
  decode_base64 cur = elim (f.raw_url_decode cur) [ none ↦ f.std_decode cur | some b ↦ some b ]

  abbrev pub parse_parts : String × String → Option (Time × ℤ)
  parse_parts (ts_str, id_str) = elim (f.parse_time ts_str) [
    | none ↦ none
    | some t ↦ elim (f.parse_int id_str) [ none ↦ none | some id ↦ some (t, id) ]
  ]

  unfoldable pub decode_cursor : String → Option (Time × ℤ)
  decode_cursor cur = elim (decode_base64 cur) [
    | none ↦ none
    | some b ↦ elim (f.cut b) [ none ↦ none | some parts ↦ parse_parts parts ]
  ]

-- What `QueryEvents` answers, or its error.
pub data Queried : Type 0 where
  query_ok : QueryResult → Queried
  query_err : StoreError → Queried

abbrev pub cursor_cond : QueryOrder → String → ℤ → Cond
cursor_cond desc ts id = before_cursor ts id
cursor_cond asc ts id = after_cursor ts id

module _ (f : Formats) where
  abbrev pub since_conds : Option Time → List Cond
  since_conds none = []
  since_conds (some t) = ts_from (f.format_time t) ∷ []

  abbrev pub until_conds : Option Time → List Cond
  until_conds none = []
  until_conds (some t) = ts_until (f.format_time t) ∷ []

  abbrev pub type_conds : Option String → List Cond
  type_conds none = []
  type_conds (some t) = if is_empty t then [] else type_is t ∷ []

  -- The condition of the cursor, if there is one; `none` is a cursor that cannot be decoded.
  abbrev pub cursor_conds : QueryOrder → Option String → Option (List Cond)
  cursor_conds order none = some []
  cursor_conds order (some c) = if is_empty c then some [] else elim (decode_cursor f c) [
    | none ↦ none
    | some p ↦ some (cursor_cond order (f.format_time p.0) p.1 ∷ [])
  ]

  -- The loop over the rows.
  abbrev pub scan_rows : List EventRow → Option (List Event)
  scan_rows [] = some []
  scan_rows (r ∷ rows) = elim (to_event f r) [
    | none ↦ none
    | some e ↦ elim (scan_rows rows) [ none ↦ none | some items ↦ some (e ∷ items) ]
  ]

  -- `items[:limit]`, and the cursor of `items[limit-1]`, where there is one item too many.
  abbrev pub page_of : ℕ → List Event → QueryResult
  page_of limit items =
      if ltb limit (length items)
      then record {
        items = take limit items;
        next_cursor = elim (get_elem? items (limit - 1)) [
          | none ↦ none
          | some last ↦ some (encode_cursor f last.ts last.id)
        ];
      }
      else record { items = items; next_cursor = none }

  abbrev pub read_rows : ℕ → Option (List EventRow) → Queried
  read_rows limit none = query_err database
  read_rows limit (some rows) = elim (scan_rows rows) [
    | none ↦ query_err scan
    | some items ↦ query_ok (page_of limit items)
  ]

  unfoldable pub query_events : (Select → Option (List EventRow)) → QueryFilter → Queried
  query_events select q = elim (cursor_conds q.order q.cursor) [
    | none ↦ query_err invalid_cursor
    | some last ↦ read_rows (effective_limit q.limit) (
        select (record {
          conds = since_conds q.since ++ until_conds q.until ++ type_conds q.type ++ last;
          order = q.order;
          limit = effective_limit q.limit + 1;
        }))
  ]
