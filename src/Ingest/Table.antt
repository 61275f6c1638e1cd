-- ===== src/Ingest/Table.antt =====
-- internal/ingest over a table whose database keeps the keys unique: what becomes of one line.
use vrclog_companion.Prelude.{
  ℕ, ◌≡◌, refl, String, Bool, true, false, not, ◌&&◌, ◌||◌, List, [], ◌∷◌, ◌++◌, ◌==◌, ◌⊎◌, inl,
  inr, str_eq, str_eq_comm, is_empty, arith, Bool-cases, Option-cases,
}
use vrclog_companion.Event.{Time}
use vrclog_companion.Event.{Event as StoreEvent}
use vrclog_companion.Store.{Formats, EventRow, validate_event, event_to_row}
use vrclog_companion.Store.Insert.{
  Exec, no_row, one_row, has_key, insert_event, new_row, FailureRow,
}
use vrclog_companion.Ingest.{Env, Event, App, to_store_event, handle_event, on_insert}

-- What SQLite documents of `ON CONFLICT(dedupe_key) DO NOTHING` with a unique key.
pub record IsTable (exec : List EventRow → EventRow → Exec) : Type 0 where
  pub conflict :
      (rows : List EventRow) (row : EventRow)
      → has_key row.dedupe_key rows ≡ true
      → exec rows row ≡ no_row
  pub fresh :
      (rows : List EventRow) (row : EventRow)
      → has_key row.dedupe_key rows ≡ false
      → (id : ℕ) × (exec rows row ≡ one_row id)

-- The event has what `validateEvent` asks for, but for the clock.
abbrev pub is_valid : (String → String) → Event → Bool
is_valid sha256_hex e =
    not (is_empty e.type) && not (is_empty (sha256_hex e.raw_line)) && not (e.timestamp == 0)

-- A valid event that is not in the table is the only one that would be inserted.
abbrev pub is_settled : (String → String) → List EventRow → Event → Bool
is_settled sha256_hex rows e = not (is_valid sha256_hex e) || has_key (sha256_hex e.raw_line) rows

pub has_key-append :
    (key : String) (rows : List EventRow) (row : EventRow)
    → has_key key (rows ++ row ∷ []) ≡ has_key key rows || str_eq row.dedupe_key key
has_key-append key [] row = ground arith
has_key-append key (r ∷ rows) row = ground (arith, has_key-append key rows row)

-- The row that an event becomes.
abbrev pub row_of : Formats → StoreEvent → EventRow
row_of f e = record (new_row f e) { id = e.id }

module _ (env : Env) where
  abbrev pub with_id : Time → Event → ℕ → StoreEvent
  with_id now e id = record (to_store_event env.sha256_hex now e) { id = id }

  -- The app with an event inserted.
  abbrev pub fed : StoreEvent → App → App
  fed e app = on_insert env e (record app { rows = app.rows ++ row_of env.formats e ∷ [] })

  pub fed_rows :
      (e : StoreEvent) (app : App) → (fed e app).rows ≡ app.rows ++ row_of env.formats e ∷ []
  unfolding on_insert
  fed_rows e app = refl

  -- The events inserted, one after the other.
  abbrev pub feed_all : List StoreEvent → App → App
  feed_all [] app = app
  feed_all (e ∷ new) app = feed_all new (fed e app)

  pub feed_all-failures :
      (new : List StoreEvent) (failures : List FailureRow) (app : App)
      → feed_all new (record app { failures = failures })
        ≡ record (feed_all new app) { failures = failures }
  unfolding on_insert
  feed_all-failures [] failures app = refl
  feed_all-failures (e ∷ new) failures app = feed_all-failures new failures (fed e app)

module _ (env : Env) (t : IsTable env.exec) where
  pub handle_cases :
      (fails : Bool) (now : Time) (e : Event) (app : App)
      → (handle_event env fails now e app ≡ app)
        ⊎ ((id : ℕ) × (handle_event env fails now e app ≡ fed env (with_id env now e id) app)
            × (has_key (env.sha256_hex e.raw_line) app.rows ≡ false))
  unfolding handle_event insert_event event_to_row
  handle_cases true now e app = inl (ground arith)
  handle_cases false now e app =
      elim (Option-cases (validate_event (to_store_event env.sha256_hex now e))) [
        | inr (x, bad) ↦ inl (ground (arith, bad))
        | inl good ↦ elim (Bool-cases (has_key (env.sha256_hex e.raw_line) app.rows)) [
          | inl old ↦ inl (
              ground (
                arith,
                good,
                t.conflict app.rows (new_row env.formats (to_store_event env.sha256_hex now e)) old,
              ))
          | inr fresh ↦
              let (id, q) =
                t.fresh app.rows (new_row env.formats (to_store_event env.sha256_hex now e))
                  fresh in
              inr (id, ground (arith, good, q), fresh)
        ]
      ]

  -- A valid event that is not in the table is inserted, unless the database fails.
  pub handle_fresh :
      (now : Time) (e : Event) (app : App)
      → (now == 0) ≡ false
      → is_settled env.sha256_hex app.rows e ≡ false
      → (id : ℕ) × (handle_event env false now e app ≡ fed env (with_id env now e id) app)
  unfolding handle_event insert_event event_to_row validate_event
  handle_fresh now e app h s =
      let (id, q) =
        t.fresh app.rows (new_row env.formats (to_store_event env.sha256_hex now e))
          (ground (arith, s)) in
      (id, ground (arith, h, s, q))

  pub handle_settled :
      (fails : Bool) (now : Time) (e : Event) (app : App)
      → (now == 0) ≡ false
      → is_settled env.sha256_hex app.rows e ≡ true
      → handle_event env fails now e app ≡ app
  unfolding handle_event insert_event event_to_row validate_event
  handle_settled fails now e app h s =
      ground
        (arith, t.conflict app.rows (new_row env.formats (to_store_event env.sha256_hex now e)))

-- No two rows have one key.
abbrev pub IsUnique : List EventRow → Type 0
IsUnique [] = Unit
IsUnique (r ∷ rows) = (has_key r.dedupe_key rows ≡ false) × IsUnique rows

pub append-IsUnique :
    (rows : List EventRow) (row : EventRow)
    → IsUnique rows
    → has_key row.dedupe_key rows ≡ false
    → IsUnique (rows ++ row ∷ [])
append-IsUnique [] row u h = (refl, tt)
append-IsUnique (r ∷ rows) row u h = (
  ground (
    arith,
    u.0,
    h,
    has_key-append r.dedupe_key rows row,
    str_eq_comm r.dedupe_key row.dedupe_key,
  ),
  append-IsUnique rows row u.1 (ground (arith, h)),
)
