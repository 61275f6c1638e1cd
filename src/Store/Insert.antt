-- ===== src/Store/Insert.antt =====
-- internal/store/events.go and parse_failures.go: writing an event or a line that cannot be parsed.
-- The database runs the statement: it may fail, and else says whether it added a row, and its id.
use vrclog_companion.Prelude.{
  ℕ, String, Bool, true, false, none, some, List, [], ◌∷◌, ◌++◌, any, str_eq, is_empty,
  if◌then◌else◌,
}
use vrclog_companion.Event.{Event}
use vrclog_companion.Store.{Formats, EventRow, StoreError, database, event_to_row, validate_event}

abbrev pub current_schema_version : ℕ
current_schema_version = 1

-- What the database makes of an `INSERT ... ON CONFLICT(dedupe_key) DO NOTHING`.
pub data Exec : Type 0 where
  exec_error : Exec
  no_row : Exec
  one_row : ℕ → Exec

-- The result of `InsertEvent`, with the event whose id it sets.
pub data Inserted : Type 0 where
  inserted : Event → Inserted
  duplicate : Inserted
  insert_failed : StoreError → Inserted

abbrev pub has_key : String → List EventRow → Bool
has_key key = any (λ r. str_eq r.dedupe_key key)

abbrev pub new_row : Formats → Event → EventRow
new_row f e = record (event_to_row f e) { schema_version = current_schema_version }

-- The rows after the statement, and the result.
abbrev pub read_exec : Formats → Exec → Event → List EventRow → List EventRow × Inserted
read_exec f exec_error e rows = (rows, insert_failed database)
read_exec f no_row e rows = (rows, duplicate)
read_exec f (one_row id) e rows =
    (rows ++ (record (new_row f e) { id = id }) ∷ [], inserted (record e { id = id }))

unfoldable pub insert_event :
    Formats → (List EventRow → EventRow → Exec) → Event → List EventRow → List EventRow × Inserted
insert_event f exec e rows = elim (validate_event e) [
  | some x ↦ (rows, insert_failed x)
  | none ↦ read_exec f (exec rows (new_row f e)) e rows
]

-- A row of `parse_failures`, without its id.
pub record FailureRow : Type 0 where
  pub ts : String
  pub raw_line : String
  pub error_msg : String
  pub dedupe_key : String

pub data FailureResult : Type 0 where
  raw_line_required : FailureResult
  failure_error : FailureResult
  failure_inserted : Bool → FailureResult

abbrev pub read_failure : Exec → FailureRow → List FailureRow → List FailureRow × FailureResult
read_failure exec_error row rows = (rows, failure_error)
read_failure no_row row rows = (rows, failure_inserted false)
read_failure (one_row id) row rows = (rows ++ row ∷ [], failure_inserted true)

-- `sha256Hex` and the formatted clock are given.
unfoldable pub insert_parse_failure :
    (String → String)
    → (List FailureRow → FailureRow → Exec)
    → String
    → String
    → String
    → List FailureRow
    → List FailureRow × FailureResult
insert_parse_failure sha256_hex exec ts raw_line error_msg rows =
    let row : FailureRow = record {
      ts = ts;
      raw_line = raw_line;
      error_msg = error_msg;
      dedupe_key = sha256_hex raw_line;
    } in
    if is_empty raw_line then (rows, raw_line_required) else read_failure (exec rows row) row rows
