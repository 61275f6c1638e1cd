-- ===== src/Store/Stats/Rows.antt =====
-- How a database answers the statements of internal/store/stats.go, as SQLite documents it.
use mathlib.Core.List.{Mem, Perm}
use vrclog_companion.Prelude.{
  ℕ, ◌≡◌, ◌≢◌, ◌≤◌, Bool, true, false, not, ◌&&◌, ◌||◌, String, str_eq, Option, some, none, List,
  [], ◌∷◌, All, keep, length, map, take, ltb,
}
use vrclog_companion.Event.{Event, Time}
use vrclog_companion.Api.Events.{desc, asc}
use vrclog_companion.Store.{Formats, EventRow, Cond, event_to_row}
use vrclog_companion.Store.Codec.{last_time}
use vrclog_companion.Store.Database.{meets_all, IsStorable}
use vrclog_companion.Store.Stats.{
  CountSelect, OrderTerm, by_ts, by_id, NameCond, of_type, not_null, not_equal, NameSelect,
  TsSelect, StatsDatabase,
}

-- Every element is related to all that come after it.
abbrev pub Pairs {ℓ κ} : {A : Type ℓ} → (A → A → Type κ) → List A → Type κ
Pairs R [] = Unit
Pairs R (x ∷ xs) = All (R x) xs × Pairs R xs

abbrev pub is_null : Option String → Bool
is_null none = true
is_null (some s) = false

-- A comparison with NULL is not true.
abbrev pub differs : String → Option String → Bool
differs s none = false
differs s (some name) = not (str_eq name s)

abbrev pub meets_name : NameCond → EventRow → Bool
meets_name (of_type type) r = str_eq r.type type
meets_name not_null r = not (is_null r.player_name)
meets_name (not_equal s) r = differs s r.player_name

abbrev pub meets_names : List NameCond → EventRow → Bool
meets_names [] r = true
meets_names (c ∷ cs) r = meets_name c r && meets_names cs r

module _ (text_lt : String → String → Bool) where
  -- How many rows of a type meet the conditions.
  abbrev pub count_rows : List Cond → String → List EventRow → ℕ
  count_rows conds type rows =
      length (keep (λ r. str_eq r.type type && meets_all text_lt conds r) rows)

  abbrev pub term_before : OrderTerm → EventRow → EventRow → Bool
  term_before (by_ts desc) a b = text_lt b.ts a.ts
  term_before (by_ts asc) a b = text_lt a.ts b.ts
  term_before (by_id desc) a b = ltb b.id a.id
  term_before (by_id asc) a b = ltb a.id b.id

  -- The terms one after another: a later one decides where the earlier ones do not.
  abbrev pub comes_before : List OrderTerm → EventRow → EventRow → Bool
  comes_before [] a b = false
  comes_before (t ∷ ts) a b = term_before t a b || (not (term_before t b a) && comes_before ts a b)

  module _ (f : Formats) where
    abbrev pub IsOrdered : List OrderTerm → List Event → Type 0
    IsOrdered order =
        Pairs (λ a b. comes_before order (event_to_row f b) (event_to_row f a) ≡ false)

    -- Events whose rows a select of names may go through: stored, of the conditions, in the order; each
    -- name among them, and, where the names are to be distinct, once. It is not documented which row
    -- of a name a `SELECT DISTINCT` orders it by, so this may be any.
    pub record IsPicked (stored : List Event) (s : NameSelect) (picked : List Event) : Type 0 where
      pub sound : All (λ e. Mem e stored × (meets_names s.conds (event_to_row f e) ≡ true)) picked
      pub complete :
          (e : Event)
          → Mem e stored
          → meets_names s.conds (event_to_row f e) ≡ true
          → Mem e.player_name (map (λ x. x.player_name) picked)
      pub distinct :
          s.distinct ≡ true → Pairs (λ a b. Event.player_name a ≢ Event.player_name b) picked
      pub ordered : IsOrdered s.order picked

    -- The database holds the events, and answers a statement as SQLite documents it. Formatted times
    -- compare as the times do.
    pub record IsStatsDatabase (stored : List Event) (db : StatsDatabase) : Type 0 where
      pub storable : All IsStorable stored
      pub text_order :
          (a b : Time)
          → a ≤ last_time
          → b ≤ last_time
          → text_lt (f.format_time a) (f.format_time b) ≡ ltb a b
      pub counted :
          (s : CountSelect)
          → let rows = map (event_to_row f) stored in
            db.counts s
            ≡ some (
              count_rows s.conds s.first rows,
              count_rows s.conds s.second rows,
              count_rows s.conds s.third rows,
            )
      pub names :
          (s : NameSelect)
          → (picked : List Event) × IsPicked stored s picked
            × (db.recent s ≡ some (take s.limit (map (λ e. e.player_name) picked)))
      pub times :
          (s : TsSelect)
          → (rows : List Event) × Perm rows stored
            × IsOrdered s.order rows
            × (db.last s ≡ some (take s.limit (map (λ e. f.format_time e.ts) rows)))
