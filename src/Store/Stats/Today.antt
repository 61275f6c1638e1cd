-- ===== src/Store/Stats/Today.antt =====
-- The numbers of internal/store/stats.go are those of the stored events, and web/src/pages/Stats.tsx shows
-- them.
use Prim.Derive.{subst}
use native.Mathlib.Bridge.{le_prop}
use mathlib.Core.List.{Mem, Perm, mem-cons_self}
use mathlib.Core.List.Perm
use vrclog_companion.Prelude.{
  ℕ, ◌≡◌, ◌≢◌, ◌≤◌, ◌<◌, refl, sym, ap, ◌∙◌, Bool, true, ◌&&◌, String, str_eq, List, [], ◌∷◌, All,
  keep, length, map, take, arith, Option, some, none, ltb, leb, is_truthy, ◌⊎◌, inl, inr,
}
use vrclog_companion.Event.{Event, Time, type_player_join, type_player_left, type_world_join}
use vrclog_companion.Client.{StatsResponse}
use vrclog_companion.Stats.{stats_cards, cards_of, render, answer, finish_load, start_load, loaded}
use vrclog_companion.Api.Events.{desc}
use vrclog_companion.Store.{Formats, event_to_row}
use vrclog_companion.Store.Codec.{last_time}
use vrclog_companion.Store.Database.{IsStorable}
use vrclog_companion.Store.Stats.{
  StatsDatabase, count_select, recent_select, last_select, by_id, first_row, scan_names,
  get_basic_stats, get_today_stats, ok_stats, handle_stats,
}
use vrclog_companion.Store.Stats.Rows.{
  Pairs, meets_names, count_rows, IsPicked, IsOrdered, IsStatsDatabase,
}
use vrclog_companion.Store.Stats.Picks.{
  All-take, Pairs-take, All-weaken, All-of_Mem, All-Mem, length-take_le, take_all, take-map,
  name_of, named-is_truthy, scan_names-map, ordered-times,
}

-- An event of a type from one time until before another.
abbrev pub is_between : Time → Time → String → Event → Bool
is_between since until type e = str_eq e.type type && (leb since e.ts && ltb e.ts until)

-- A join of a player whose name is not empty.
abbrev pub is_named_join : Event → Bool
is_named_join e = str_eq e.type type_player_join && is_truthy e.player_name

-- The events whose players are shown: joins that are stored, at most five, each player's once, by time
-- with the latest first; and where they are fewer than five, every player is among them who is stored as
-- having joined.
pub record IsShown (stored shown : List Event) : Type 0 where
  pub few : length shown ≤ 5
  pub joins : All (λ e. Mem e stored × (is_named_join e ≡ true)) shown
  pub distinct : Pairs (λ a b. Event.player_name a ≢ Event.player_name b) shown
  pub ordered : Pairs (λ a b. Event.ts b ≤ Event.ts a) shown
  pub full :
      length shown < 5
      → (e : Event) → Mem e stored
      → is_named_join e ≡ true
      → Mem e.player_name (map (λ x. x.player_name) shown)

-- The time of a stored event that none is after, or none where nothing is stored.
abbrev pub IsLatest : Formats → List Event → Option String → Type 0
IsLatest f stored last =
    ((stored ≡ []) × (last ≡ none))
    ⊎ ((e : Event) × Mem e stored
        × (last ≡ some (f.format_time e.ts))
        × ((x : Event) → Mem x stored → x.ts ≤ e.ts))

-- What the numbers of a day say of the stored events.
pub record IsToday (f : Formats) (stored : List Event) (since until : Time) (r : StatsResponse)
    : Type 0 where
  pub joins : r.today_joins ≡ length (keep (is_between since until type_player_join) stored)
  pub leaves : r.today_leaves ≡ length (keep (is_between since until type_player_left) stored)
  pub worlds : r.today_world_changes ≡ length (keep (is_between since until type_world_join) stored)
  pub shown : List Event
  pub players : r.recent_players ≡ map name_of shown
  pub recent : IsShown stored shown
  pub last : IsLatest f stored r.last_event_at

module _ (f : Formats) (text_lt : String → String → Bool)
    (order : (a b : Time)
      → a ≤ last_time
      → b ≤ last_time
      → text_lt (f.format_time a) (f.format_time b) ≡ ltb a b) where
  count_stored :
      (since until : Time) (type : String) (stored : List Event)
      → since ≤ last_time
      → until ≤ last_time
      → All IsStorable stored
      → count_rows text_lt (count_select f since until).conds type (map (event_to_row f) stored)
        ≡ length (keep (is_between since until type) stored)
  unfolding event_to_row
  count_stored since until type [] s u all = refl
  count_stored since until type (e ∷ stored) s u (st, all) =
      let rest = count_stored since until type stored s u all in
      let low = order e.ts since st.ts s in
      let high = order e.ts until st.ts u in ground (arith, rest, low, high)

  module _ (stored : List Event) (storable : All IsStorable stored) where
    in_time : (e : Event) → Mem e stored → e.ts ≤ last_time
    in_time e m =
        All-Mem (λ e. e.ts ≤ last_time) e stored le_prop
          (All-weaken stored (λ e st. st.ts) storable) m

    select_named :
        (e : Event) → meets_names recent_select.conds (event_to_row f e) ≡ is_named_join e
    unfolding event_to_row
    select_named e = ap (λ b. str_eq e.type type_player_join && b) (named-is_truthy e.player_name)

    picked-IsShown :
        (picked : List Event)
        → IsPicked text_lt f stored recent_select picked
        → IsShown stored (take 5 picked)
    picked-IsShown picked p =
        let times = All-weaken picked (λ e s. in_time e s.0) p.sound in
        record {
          few = length-take_le 5 picked;
          joins =
              All-take _ 5 picked
                (All-weaken picked (λ e s. (s.0, sym (select_named e) ∙ s.1)) p.sound);
          distinct = Pairs-take _ 5 picked (p.distinct refl);
          ordered = Pairs-take _ 5 picked (ordered-times f text_lt order [] picked times p.ordered);
          full = λ fewer e m named.
              subst (λ l. Mem e.player_name (map (λ x. Event.player_name x) l))
                (sym (take_all 5 picked fewer)) (p.complete e m (select_named e ∙ named));
        }

    first_row-IsLatest :
        (rows : List Event)
        → Perm rows stored
        → IsOrdered text_lt f last_select.order rows
        → IsLatest f stored (first_row (take 1 (map (λ e. f.format_time e.ts) rows)))
    first_row-IsLatest [] same ordered = inl (sym (Perm.nil-eq same), refl)
    first_row-IsLatest (x ∷ rows) same ordered =
        let times = All-of_Mem (x ∷ rows) (λ e m. in_time e ((Perm.mem_iff same).0 m)) in
        let later = ordered-times f text_lt order (by_id desc ∷ []) (x ∷ rows) times ordered in
        inr (
          x,
          (Perm.mem_iff same).0 mem-cons_self,
          refl,
          λ e m.
              All-Mem (λ y. y.ts ≤ x.ts) e (x ∷ rows) le_prop (omega arith, later.0)
                ((Perm.mem_iff same).1 m),
        )

-- With a database that runs the statements, for bounds of the day that can be written: the handler
-- answers with the numbers of joins, leaves and world changes that are stored from the start of the day
-- until before its end; with the names of at most five players, each once, who are stored as having
-- joined, in the order of a join of each, the latest first, and with all of them where they are fewer
-- than five; and with the time of the latest event. The page shows exactly these when it is answered.
pub handle_stats-IsToday :
    (f : Formats) (text_lt : String → String → Bool) (stored : List Event) (db : StatsDatabase)
    (since until : Time) (show_date : String → String)
    → IsStatsDatabase text_lt f stored db
    → since ≤ last_time
    → until ≤ last_time
    → (r : StatsResponse) × (handle_stats f db (since, until) ≡ ok_stats r)
      × IsToday f stored since until r
      × (render show_date (answer (inl r) loaded) ≡ stats_cards (cards_of show_date (some r)))
unfolding handle_stats get_today_stats get_basic_stats render answer finish_load loaded start_load
handle_stats-IsToday f text_lt stored db since until show_date d s u =
    let (picked, is_picked, named) = d.names recent_select in
    let (rows, same_rows, ordered, timed) = d.times last_select in
    let shown = picked-IsShown f text_lt d.text_order stored d.storable picked is_picked in
    let table = map (event_to_row f) stored in
    let conds = (count_select f since until).conds in
    let count : String → ℕ = λ type. count_rows text_lt conds type table in
    let counted = d.counted (count_select f since until) in
    let scanned : scan_names (take 5 (map (λ e. e.player_name) picked))
        ≡ some (map name_of (take 5 picked)) =
      ap scan_names (take-map (λ e. e.player_name) 5 picked)
      ∙ scan_names-map (take 5 picked)
          (All-weaken (take 5 picked) (λ e j. ground (arith, j.1)) shown.joins) in
    let r : StatsResponse = record {
      today_joins = count type_player_join;
      today_leaves = count type_player_left;
      today_world_changes = count type_world_join;
      recent_players = map name_of (take 5 picked);
      last_event_at = first_row (take 1 (map (λ e. f.format_time e.ts) rows));
    } in
    let same = λ (type : String).
      count_stored f text_lt d.text_order since until type stored s u d.storable in
    (
      r,
      rw (handle_stats, get_today_stats, get_basic_stats, counted, named, scanned, timed) refl,
      record {
        joins = same type_player_join;
        leaves = same type_player_left;
        worlds = same type_world_join;
        shown = take 5 picked;
        players = refl;
        recent = shown;
        last = first_row-IsLatest f text_lt d.text_order stored d.storable rows same_rows ordered;
      },
      refl,
    )
