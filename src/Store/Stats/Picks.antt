-- ===== src/Store/Stats/Picks.antt =====
-- What a `LIMIT` leaves of the rows that internal/store/stats.go selects in an order.
use Prim.Derive.{subst}
use mathlib.Core.Bool.{true≢false}
use mathlib.Core.Logic.Or
use mathlib.Core.List.{Mem, mem-cons_self, mem-cons_of_mem, not-mem-nil, eq-or-mem_of_mem-cons}
use vrclog_companion.Prelude.{
  ℕ, zero, suc, ◌≡◌, ◌≤◌, ◌<◌, refl, sym, ap, Bool, true, not, ◌&&◌, String, is_empty, str_eq,
  Option, some, none, is_truthy, text_or_empty, List, [], ◌∷◌, All, length, map, take, ltb, arith,
  Bool-cases, eq_of_str_eq, inl, inr,
}
use vrclog_companion.Event.{Event, Time}
use vrclog_companion.Api.Events.{desc}
use vrclog_companion.Store.{Formats, event_to_row}
use vrclog_companion.Store.Codec.{last_time}
use vrclog_companion.Store.Stats.{OrderTerm, by_ts, append_name, scan_names}
use vrclog_companion.Store.Stats.Rows.{Pairs, IsOrdered, is_null, differs}

module _ {ℓ} {A : Type ℓ} where
  pub All-take {κ} : (P : A → Type κ) (n : ℕ) (l : List A) → All P l → All P (take n l)
  All-take P zero l h = tt
  All-take P (suc n) [] h = tt
  All-take P (suc n) (x ∷ l) (one, rest) = (one, All-take P n l rest)

  pub Pairs-take {κ} : (R : A → A → Type κ) (n : ℕ) (l : List A) → Pairs R l → Pairs R (take n l)
  Pairs-take R zero l h = tt
  Pairs-take R (suc n) [] h = tt
  Pairs-take R (suc n) (x ∷ l) (one, rest) = (All-take (R x) n l one, Pairs-take R n l rest)

  pub All-weaken {κ μ} :
      {P : A → Type κ} {Q : A → Type μ} (l : List A) → ((a : A) → P a → Q a) → All P l → All Q l
  All-weaken [] w h = tt
  All-weaken (x ∷ l) w (one, rest) = (w x one, All-weaken l w rest)

  all_related {κ μ ν} :
      {P : A → Type κ} {R : A → Type μ} {S : A → Type ν} (l : List A)
      → ((a : A) → P a → R a → S a)
      → All P l
      → All R l
      → All S l
  all_related [] w h k = tt
  all_related (x ∷ l) w (p, ps) (r, rs) = (w x p r, all_related l w ps rs)

  -- A relation between elements of a property, weakened.
  pub Pairs-weaken {κ μ ν} :
      {P : A → Type κ} {R : A → A → Type μ} {S : A → A → Type ν} (l : List A)
      → ((a b : A) → P a → P b → R a b → S a b)
      → All P l
      → Pairs R l
      → Pairs S l
  Pairs-weaken [] w h k = tt
  Pairs-weaken (x ∷ l) w (p, ps) (r, rs) =
      (all_related l (λ b q. w x b p q) ps r, Pairs-weaken l w ps rs)

  pub All-of_Mem {κ} : {P : A → Type κ} (l : List A) → ((a : A) → Mem a l → P a) → All P l
  All-of_Mem [] h = tt
  All-of_Mem (x ∷ l) h = (h x mem-cons_self, All-of_Mem l (λ a m. h a (mem-cons_of_mem x m)))

  pub All-Mem {κ} : (P : A → Type κ) (a : A) (l : List A) → IsProp (P a) → All P l → Mem a l → P a
  All-Mem P a [] prop h m = absurd (not-mem-nil m)
  All-Mem P a (x ∷ l) prop (one, rest) m =
      Or.elim prop (eq-or-mem_of_mem-cons m) (λ e. subst P (sym e) one)
        (λ later. All-Mem P a l prop rest later)

  pub length-take_le : (n : ℕ) (l : List A) → length (take n l) ≤ n
  length-take_le zero l = omega arith
  length-take_le (suc n) [] = omega arith
  length-take_le (suc n) (x ∷ l) = omega (arith, length-take_le n l)

  -- Where a limit is not reached, nothing is left out.
  pub take_all : (n : ℕ) (l : List A) → length (take n l) < n → take n l ≡ l
  take_all zero l h = absurd (omega (arith, h))
  take_all (suc n) [] h = refl
  take_all (suc n) (x ∷ l) h = ap (λ k. x ∷ k) (take_all n l (omega (arith, h)))

  pub take-map {κ} :
      {B : Type κ} (g : A → B) (n : ℕ) (l : List A) → take n (map g l) ≡ map g (take n l)
  take-map g zero l = refl
  take-map g (suc n) [] = refl
  take-map g (suc n) (x ∷ l) = ap (λ k. g x ∷ k) (take-map g n l)

abbrev pub name_of : Event → String
name_of e = text_or_empty e.player_name

-- The conditions on a name say that it is there and not empty.
pub named-is_truthy :
    (o : Option String) → (not (is_null o) && (differs "" o && true)) ≡ is_truthy o
named-is_truthy none = refl
named-is_truthy (some String.[]) = refl
named-is_truthy (some (String.◌∷◌ c s)) = elim (Bool-cases (str_eq (String.◌∷◌ c s) "")) [
  | inl e ↦ absurd (true≢false (sym (ap is_empty (eq_of_str_eq (String.◌∷◌ c s) "" e))))
  | inr e ↦ rw e refl
]

scan_named :
    (o : Option String) (rows : List (Option String)) (names : List String)
    → is_truthy o ≡ true
    → scan_names rows ≡ some names
    → scan_names (o ∷ rows) ≡ some (text_or_empty o ∷ names)
scan_named none rows names h e = ground (arith, h)
scan_named (some name) rows names h e = ap (append_name name) e

-- Rows with names are all read.
pub scan_names-map :
    (l : List Event)
    → All (λ e. is_truthy e.player_name ≡ true) l
    → scan_names (map (λ e. e.player_name) l) ≡ some (map name_of l)
scan_names-map [] h = refl
scan_names-map (e ∷ l) (named, rest) =
    scan_named e.player_name (map (λ e. e.player_name) l) (map name_of l) named
      (scan_names-map l rest)

module _ (f : Formats) (text_lt : String → String → Bool)
    (order : (a b : Time)
      → a ≤ last_time
      → b ≤ last_time
      → text_lt (f.format_time a) (f.format_time b) ≡ ltb a b) where
  -- Rows that are ordered by time, the latest first, and by whatever then.
  pub ordered-times :
      (terms : List OrderTerm) (l : List Event)
      → All (λ e. e.ts ≤ last_time) l
      → IsOrdered text_lt f (by_ts desc ∷ terms) l
      → Pairs (λ a b. Event.ts b ≤ Event.ts a) l
  unfolding event_to_row
  ordered-times terms l times h =
      Pairs-weaken l (λ a b s t r. ground (arith, order a.ts b.ts s t, r)) times h
