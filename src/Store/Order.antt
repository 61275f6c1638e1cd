-- ===== src/Store/Order.antt =====
-- The order of the rows that internal/store/events.go asks for, and what a cursor leaves of a list.
use vrclog_companion.Prelude.{
  Bool-cases, sym, inl, inr, ℕ, zero, suc, ◌≡◌, ◌≤◌, refl, ap, Bool, true, false, ◌&&◌, ◌||◌, List,
  [], ◌∷◌, ◌++◌, All, keep, take, get_elem?, length, arith, some, ltb, ◌==◌, ==_iff,
}
use vrclog_companion.Event.{Event, Time}
use vrclog_companion.Api.Events.{QueryOrder, desc, asc}

-- The event comes after the time and id of a cursor.
abbrev pub past : QueryOrder → Time → ℕ → Event → Bool
past desc t id e = ltb e.ts t || (e.ts == t && ltb e.id id)
past asc t id e = ltb t e.ts || (e.ts == t && ltb id e.id)

abbrev pub IsSorted : QueryOrder → List Event → Type 0
IsSorted order [] = Unit
IsSorted order (x ∷ l) = All (λ y. past order x.ts x.id y ≡ true) l × IsSorted order l

past_asym : (o : QueryOrder) (x y : Event) → past o x.ts x.id y ≡ true → past o y.ts y.id x ≡ false
past_asym desc x y h = ground (arith, ==_iff x.ts y.ts, ==_iff y.ts x.ts)
past_asym asc x y h = ground (arith, ==_iff x.ts y.ts, ==_iff y.ts x.ts)

past_irrefl : (o : QueryOrder) (x : Event) → past o x.ts x.id x ≡ false
past_irrefl desc x = ground arith
past_irrefl asc x = ground arith

pub All-at :
    (P : Event → Type 0) (xs : List Event) (y : Event) (ys : List Event)
    → All P (xs ++ y ∷ ys)
    → P y
All-at P [] y ys a = a.0
All-at P (x ∷ xs) y ys a = All-at P xs y ys a.1

pub keep-All : (p : Event → Bool) (l : List Event) → All (λ e. p e ≡ true) l → keep p l ≡ l
keep-All p [] a = refl
keep-All p (x ∷ l) a = rw (a.0, keep-All p l a.1) refl

-- The events past one of a sorted list are those that follow it there.
pub keep-past :
    (o : QueryOrder) (xs : List Event) (y : Event) (ys : List Event)
    → IsSorted o (xs ++ y ∷ ys)
    → keep (past o y.ts y.id) (xs ++ y ∷ ys) ≡ ys
keep-past o [] y ys s = rw (past_irrefl o y, keep-All (past o y.ts y.id) ys s.0) refl
keep-past o (x ∷ xs) y ys s =
    rw (past_asym o x y (All-at _ xs y ys s.0), keep-past o xs y ys s.1) refl

-- A list against one more than a page of m + 1 of it: all of it is on the page, or the page ends at
-- `last` and more follows.
pub data Split (m : ℕ) (l : List Event) : Type 0 where
  whole : length l ≤ suc m → take (suc (suc m)) l ≡ l → Split m l
  cut_at :
      (xs : List Event) (last : Event) (ys : List Event)
      → l ≡ xs ++ last ∷ ys
      → length xs ≡ m
      → length (take (suc (suc m)) l) ≡ suc (suc m)
      → take (suc m) (take (suc (suc m)) l) ≡ xs ++ last ∷ []
      → get_elem? (take (suc (suc m)) l) m ≡ some last
      → Split m l

Split-more : (m : ℕ) (x : Event) (l : List Event) → Split m l → Split (suc m) (x ∷ l)
Split-more m x l (whole h e) = whole (omega arith) (ap (λ t. x ∷ t) e)
Split-more m x l (cut_at xs last ys e n k t g) =
    cut_at (x ∷ xs) last ys (ap (λ l. x ∷ l) e) (ap suc n) (ap suc k) (ap (λ l. x ∷ l) t) g

pub split : (m : ℕ) (l : List Event) → Split m l
split m [] = whole (omega arith) refl
split zero (x ∷ []) = whole (omega arith) refl
split zero (x ∷ y ∷ l) = cut_at [] x (y ∷ l) refl refl refl refl refl
split (suc m) (x ∷ l) = Split-more m x l (split m l)

past_trans :
    (o : QueryOrder) (t : Time) (id : ℕ) (x y : Event)
    → past o t id x ≡ true
    → past o x.ts x.id y ≡ true
    → past o t id y ≡ true
past_trans desc t id x y h k = ground (arith, ==_iff x.ts t, ==_iff y.ts x.ts, ==_iff y.ts t)
past_trans asc t id x y h k = ground (arith, ==_iff x.ts t, ==_iff y.ts x.ts, ==_iff y.ts t)

past-All :
    (o : QueryOrder) (t : Time) (id : ℕ) (x : Event) (l : List Event)
    → past o t id x ≡ true
    → All (λ y. past o x.ts x.id y ≡ true) l
    → All (λ y. past o t id y ≡ true) l
past-All o t id x [] h a = tt
past-All o t id x (y ∷ l) h a = (past_trans o t id x y h a.0, past-All o t id x l h a.1)

-- The events past any time and id are the end of a sorted list.
pub past_suffix :
    (o : QueryOrder) (t : Time) (id : ℕ) (l : List Event)
    → IsSorted o l
    → (pre : List Event) × (l ≡ pre ++ keep (past o t id) l)
past_suffix o t id [] s = ([], refl)
past_suffix o t id (x ∷ l) s = elim (Bool-cases (past o t id x)) [
  | inl h ↦
      ([], rw h (ap (λ k. x ∷ k) (sym (keep-All (past o t id) l (past-All o t id x l h s.0)))))
  | inr h ↦ let (pre, e) = past_suffix o t id l s.1 in (x ∷ pre, rw h (ap (λ k. x ∷ k) e))
]
