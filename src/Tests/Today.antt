-- ===== src/Tests/Today.antt =====
-- The numbers of a day with two joins.
use Prim.Derive.{subst}
use mathlib.Core.Bool.{true≢false}
use mathlib.Core.Logic.Or
use mathlib.Core.List.{
  Mem, Mem-prop, Perm, mem-cons_self, mem-cons_of_mem, mem-map_of_mem, not-mem-nil,
  eq-or-mem_of_mem-cons,
}
use mathlib.Core.List.Perm
use vrclog_companion.Prelude.{
  ◌≡◌, ◌≢◌, refl, sym, ap, Bool, true, false, List, [], ◌∷◌, All, keep, All-keep, map, take, arith,
  some, is_text, if◌then◌else◌, Bool-cases, inl, inr,
}
use vrclog_companion.Event.{Event}
use vrclog_companion.Client.{StatsResponse}
use vrclog_companion.Stats.{stats_cards, cards_of, render, answer, loaded}
use vrclog_companion.Api.Events.{desc, asc}
use vrclog_companion.Store.{event_to_row}
use vrclog_companion.Store.Stats.{
  OrderTerm, by_ts, by_id, NameSelect, StatsDatabase, ok_stats, get_basic_stats, get_today_stats,
  handle_stats,
}
use vrclog_companion.Store.Stats.Rows.{
  Pairs, meets_names, count_rows, term_before, comes_before, IsOrdered, IsPicked, IsStatsDatabase,
}
use vrclog_companion.Store.Stats.Picks.{All-of_Mem}
use vrclog_companion.Store.Stats.Today.{IsToday, handle_stats-IsToday}
use vrclog_companion.Tests.Records.{unary, shorter, joined, table-IsDatabase}

abbrev alice : Event
alice = record joined { id = 2 }

abbrev bob : Event
bob = record joined { id = 1; ts = 2; player_name = some "Bob" }

abbrev both : List Event
both = bob ∷ alice ∷ []

term_before-asym :
    (t : OrderTerm) (a b : Event)
    → term_before shorter t (event_to_row unary a) (event_to_row unary b) ≡ true
    → term_before shorter t (event_to_row unary b) (event_to_row unary a) ≡ false
term_before-asym (by_ts desc) a b h = ground (arith, h)
term_before-asym (by_ts asc) a b h = ground (arith, h)
term_before-asym (by_id desc) a b h = ground (arith, h)
term_before-asym (by_id asc) a b h = ground (arith, h)

comes_before-asym :
    (terms : List OrderTerm) (a b : Event)
    → comes_before shorter terms (event_to_row unary a) (event_to_row unary b) ≡ true
    → comes_before shorter terms (event_to_row unary b) (event_to_row unary a) ≡ false
comes_before-asym [] a b h = refl
comes_before-asym (t ∷ terms) a b h =
    ground (arith, h, term_before-asym t a b, term_before-asym t b a, comes_before-asym terms a b)

-- The two in an order.
abbrev sorted : List OrderTerm → List Event
sorted terms =
    if comes_before shorter terms (event_to_row unary bob) (event_to_row unary alice)
    then bob ∷ alice ∷ []
    else alice ∷ bob ∷ []

-- What a test of the sorted rows needs of them.
record IsArranged (terms : List OrderTerm) (l : List Event) : Type 0 where
  same : Perm l both
  ordered : IsOrdered shorter unary terms l
  distinct : Pairs (λ a b. Event.player_name a ≢ Event.player_name b) l

differ : ◌≢◌ (Event.player_name alice) bob.player_name
differ e = true≢false (sym (ap (is_text "Bob") e))

sorted-IsArranged : (terms : List OrderTerm) → IsArranged terms (sorted terms)
sorted-IsArranged terms =
    elim (Bool-cases
      (comes_before shorter terms (event_to_row unary bob) (event_to_row unary alice))) [
        | inl first ↦ rw first (record {
          same = Perm.rfl;
          ordered = ((comes_before-asym terms bob alice first, tt), (tt, tt));
          distinct = ((λ e. differ (sym e), tt), (tt, tt));
        })
        | inr later ↦ rw later (record {
          same = Perm.swap bob alice [];
          ordered = ((later, tt), (tt, tt));
          distinct = ((differ, tt), (tt, tt));
        })
      ]

module _ {ℓ} {A : Type ℓ} (p : A → Bool) where
  Pairs-keep {κ} : (R : A → A → Type κ) (l : List A) → Pairs R l → Pairs R (keep p l)
  Pairs-keep R [] h = tt
  Pairs-keep R (x ∷ l) (one, rest) = elim (Bool-cases (p x)) [
    | inl e ↦ rw e (All-keep (R x) p l one, Pairs-keep R l rest)
    | inr e ↦ rw e (Pairs-keep R l rest)
  ]

  keep_sound {κ} :
      (P : A → Type κ) (l : List A) → All P l → All (λ x. P x × (p x ≡ true)) (keep p l)
  keep_sound P [] h = tt
  keep_sound P (x ∷ l) (one, rest) = elim (Bool-cases (p x)) [
    | inl e ↦ rw e ((one, e), keep_sound P l rest)
    | inr e ↦ rw e (keep_sound P l rest)
  ]

  keep_complete : (a : A) (l : List A) → p a ≡ true → Mem a l → Mem a (keep p l)
  keep_complete a [] h m = absurd (not-mem-nil m)
  keep_complete a (x ∷ l) h m =
      Or.elim Mem-prop (eq-or-mem_of_mem-cons m)
        (λ e. subst (λ y. Mem a (if p y then y ∷ keep p l else keep p l)) e (rw h mem-cons_self))
        (λ later. elim (Bool-cases (p x)) [
          | inl e ↦ rw e (mem-cons_of_mem x (keep_complete a l h later))
          | inr e ↦ rw e (keep_complete a l h later)
        ])

abbrev picks : NameSelect → Event → Bool
picks s e = meets_names s.conds (event_to_row unary e)

sorted-IsPicked : (s : NameSelect) → IsPicked shorter unary both s (keep (picks s) (sorted s.order))
sorted-IsPicked s =
    let l = sorted s.order in
    let x = sorted-IsArranged s.order in
    record {
      sound =
          keep_sound (picks s) (λ e. Mem e both) l
            (All-of_Mem l (λ e m. (Perm.mem_iff x.same).0 m));
      complete = λ e m h.
          mem-map_of_mem (λ y. Event.player_name y)
            (keep_complete (picks s) e l h ((Perm.mem_iff x.same).1 m));
      distinct = λ d. Pairs-keep (picks s) _ l x.distinct;
      ordered = Pairs-keep (picks s) _ l x.ordered;
    }

abbrev numbers : StatsDatabase
numbers = record {
  counts = λ s.
      let rows = map (event_to_row unary) both in
      some (
        count_rows shorter s.conds s.first rows,
        count_rows shorter s.conds s.second rows,
        count_rows shorter s.conds s.third rows,
      );
  recent = λ s. some (take s.limit (map (λ e. e.player_name) (keep (picks s) (sorted s.order))));
  last = λ s. some (take s.limit (map (λ e. unary.format_time e.ts) (sorted s.order)));
}

numbers-IsStatsDatabase : IsStatsDatabase shorter unary both numbers
numbers-IsStatsDatabase = record {
  storable = (
    record { ts = omega arith; ingested_at = omega arith; id = omega arith },
    (record { ts = omega arith; ingested_at = omega arith; id = omega arith }, tt),
  );
  text_order = table-IsDatabase.text_order;
  counted = λ s. refl;
  names = λ s. (keep (picks s) (sorted s.order), sorted-IsPicked s, refl);
  times = λ s. let x = sorted-IsArranged s.order in (sorted s.order, x.same, x.ordered, refl);
}

-- From 2 until before 4.
handle_stats-IsToday_example :
    (r : StatsResponse) × (handle_stats unary numbers (2, 4) ≡ ok_stats r)
    × IsToday unary both 2 4 r
    × (render (λ s. s) (answer (inl r) loaded) ≡ stats_cards (cards_of (λ s. s) (some r)))
handle_stats-IsToday_example =
    handle_stats-IsToday unary shorter both numbers 2 4 (λ s. s) numbers-IsStatsDatabase
      (omega arith) (omega arith)

two_joins :
    handle_stats unary numbers (2, 4)
    ≡ ok_stats (record {
      today_joins = 2;
      today_leaves = 0;
      today_world_changes = 0;
      recent_players = "Alice" ∷ "Bob" ∷ [];
      last_event_at = some "III";
    })
unfolding handle_stats get_today_stats get_basic_stats event_to_row
two_joins = refl
