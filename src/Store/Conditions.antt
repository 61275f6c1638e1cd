-- ===== src/Store/Conditions.antt =====
-- The conditions of a query of internal/store/events.go, as what they ask of an event.
use vrclog_companion.Prelude.{
  ℕ, ◌≡◌, ◌≤◌, refl, sym, ap, ◌∙◌, pos, Bool, ◌&&◌, String, str_eq, List, [], ◌∷◌, ◌++◌, arith,
  Option, some, none, ltb, ◌==◌, str_eq_refl, eq_of_str_eq, ==_iff, Bool-cases, inl, inr,
}
use vrclog_companion.Event.{Event, Time}
use vrclog_companion.Api.Events.{QueryOrder, desc, asc}
use vrclog_companion.Store.{
  Formats, EventRow, Cond, event_to_row, since_conds, until_conds, type_conds, cursor_cond,
}
use vrclog_companion.Store.Codec.{IsFormats, last_time}
use vrclog_companion.Store.Order.{past}
use vrclog_companion.Store.Database.{meets, meets_all, IsStorable, is_from, is_until, is_of_type}

pub meets_all-append :
    (text_lt : String → String → Bool) (cs ds : List Cond) (r : EventRow)
    → meets_all text_lt (cs ++ ds) r ≡ meets_all text_lt cs r && meets_all text_lt ds r
meets_all-append text_lt [] ds r = refl
meets_all-append text_lt (c ∷ cs) ds r = ground (arith, meets_all-append text_lt cs ds r)

-- Formatted times are equal as texts when the times are.
same_time :
    (f : Formats) (a b : Time)
    → IsFormats f
    → a ≤ last_time
    → b ≤ last_time
    → str_eq (f.format_time a) (f.format_time b) ≡ (a == b)
same_time f a b v h k = elim (Bool-cases (a == b)) [
  | inl e ↦ rw ((==_iff a b).0 e, str_eq_refl (f.format_time b)) (sym ((==_iff b b).1 refl))
  | inr d ↦ elim (Bool-cases (str_eq (f.format_time a) (f.format_time b))) [
    | inr e ↦ e ∙ sym d
    | inl e ↦
        let same : f.format_time a ≡ f.format_time b = eq_of_str_eq _ _ e in
        let read : some a ≡ some b =
          sym (v.time_read a h) ∙ ap f.parse_time same ∙ v.time_read b k in
        absurd (ground (arith, read, d))
  ]
]

-- A storable bound, where there is one.
abbrev pub IsBound : Option Time → Type 0
IsBound none = Unit
IsBound (some t) = t ≤ last_time

module _ (f : Formats) (text_lt : String → String → Bool)
    (order : (a b : Time)
      → a ≤ last_time
      → b ≤ last_time
      → text_lt (f.format_time a) (f.format_time b) ≡ ltb a b)
    (v : IsFormats f) where
  pub meets-since :
      (o : Option Time) (e : Event)
      → IsBound o
      → IsStorable e
      → meets_all text_lt (since_conds f o) (event_to_row f e) ≡ is_from o e
  unfolding event_to_row
  meets-since none e b s = refl
  meets-since (some t) e b s = ground (arith, order e.ts t s.ts b)

  pub meets-until :
      (o : Option Time) (e : Event)
      → IsBound o
      → IsStorable e
      → meets_all text_lt (until_conds f o) (event_to_row f e) ≡ is_until o e
  unfolding event_to_row
  meets-until none e b s = refl
  meets-until (some t) e b s = ground (arith, order e.ts t s.ts b)

  pub meets-type :
      (o : Option String) (e : Event)
      → meets_all text_lt (type_conds f o) (event_to_row f e) ≡ is_of_type o e
  unfolding event_to_row
  meets-type none e = refl
  meets-type (some t) e = ground arith

  pub meets-cursor :
      (o : QueryOrder) (t : Time) (id : ℕ) (e : Event)
      → t ≤ last_time
      → IsStorable e
      → meets text_lt (cursor_cond o (f.format_time t) (pos id)) (event_to_row f e) ≡ past o t id e
  unfolding event_to_row
  meets-cursor desc t id e b s = ground (arith, order e.ts t s.ts b, same_time f e.ts t v s.ts b)
  meets-cursor asc t id e b s = ground (arith, order t e.ts b s.ts, same_time f e.ts t v s.ts b)
