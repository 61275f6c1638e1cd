-- ===== src/Store/Pages.antt =====
-- What a caller gets who follows the cursors of `QueryEvents` in internal/store/events.go.
use Prim.Derive.{subst}
use mathlib.Core.List.{append_assoc}
use vrclog_companion.Prelude.{
  ℕ, zero, suc, ◌+◌, ◌*◌, ◌≡◌, ◌≤◌, refl, sym, ap, ◌∙◌, ℤ, pos, negsuc, Bool, true, false, ◌&&◌,
  String, List, [], ◌∷◌, ◌++◌, All, All-keep, keep, take, get_elem?, length, arith, Option, some,
  none, if◌then◌else◌, ltb, Bool-cases, inl, inr,
}
use vrclog_companion.Event.{Event, Time}
use vrclog_companion.Api.Events.{QueryFilter, QueryOrder}
use vrclog_companion.Store.{
  Formats, EventRow, Select, encode_cursor, query_events, query_ok, query_err, effective_limit,
  page_of,
}
use vrclog_companion.Store.Codec.{IsFormats}
use vrclog_companion.Store.Order.{
  past, IsSorted, keep-past, Split, whole, cut_at, split, All-at, keep-All,
}
use vrclog_companion.Store.Database.{IsDatabase, IsStorable, wanted}
use vrclog_companion.Store.Conditions.{IsBound}
use vrclog_companion.Store.Answers.{IsMark, cursor_of, left_over, query_events_lem}

-- The items of up to so many queries, each with the cursor of the one before; `none` if one fails.
unfoldable pub follow :
    Formats → (Select → Option (List EventRow)) → ℕ → QueryFilter → Option (List Event)
follow f select zero q = some []
follow f select (suc n) q = elim (query_events f select q) [
  | query_err x ↦ none
  | query_ok r ↦ elim r.next_cursor [
    | none ↦ some r.items
    | some c ↦ elim (follow f select n (record q { cursor = some c })) [
      | none ↦ none
      | some rest ↦ some (r.items ++ rest)
    ]
  ]
]

pub keep-keep : (p r : Event → Bool) (l : List Event) → keep (λ e. p e && r e) l ≡ keep r (keep p l)
keep-keep p r [] = refl
keep-keep p r (e ∷ l) = ground (arith, keep-keep p r l)

keep-IsSorted :
    (o : QueryOrder) (p : Event → Bool) (l : List Event) → IsSorted o l → IsSorted o (keep p l)
keep-IsSorted o p [] s = tt
keep-IsSorted o p (e ∷ l) s =
    elim (p e) as (λ b. IsSorted o (if b then e ∷ keep p l else keep p l)) [
      | true ↦ (All-keep _ p l s.0, keep-IsSorted o p l s.1)
      | false ↦ keep-IsSorted o p l s.1
    ]

pub All-true : (l : List Event) → All (λ e. true ≡ true) l
All-true [] = tt
All-true (e ∷ l) = (refl, All-true l)

pub take_all : (k : ℕ) (l : List Event) → length l ≤ k → take k l ≡ l
take_all zero [] h = refl
take_all zero (e ∷ l) h = absurd (omega arith)
take_all (suc k) [] h = refl
take_all (suc k) (e ∷ l) h = ap (λ t. e ∷ t) (take_all k l (omega arith))

pub take-append :
    (j k : ℕ) (xs : List Event) (last : Event) (ys : List Event)
    → j ≡ suc (length xs) + k
    → take j (xs ++ last ∷ ys) ≡ (xs ++ last ∷ []) ++ take k ys
take-append zero k xs last ys e = absurd (omega (arith, e))
take-append (suc j) k [] last ys e =
    let same : j ≡ k = omega (arith, e) in ap (λ i. last ∷ take i ys) same
take-append (suc j) k (x ∷ xs) last ys e =
    ap (λ t. x ∷ t) (take-append j k xs last ys (omega (arith, e)))

effective_limit-suc : (l : ℤ) → (m : ℕ) × (effective_limit l ≡ suc m)
unfolding effective_limit
effective_limit-suc (pos zero) = (99, refl)
effective_limit-suc (pos (suc n)) = elim (Bool-cases (ltb 500 (suc n))) [
  | inl h ↦ (499, ground (arith, h))
  | inr h ↦ (n, ground (arith, h))
]
effective_limit-suc (negsuc n) = (99, refl)

pub page_whole :
    (f : Formats) (m : ℕ) (l : List Event)
    → length l ≤ suc m
    → page_of f (suc m) l ≡ record { items = l; next_cursor = none }
page_whole f m l h = ground arith

pub page_cut :
    (f : Formats) (m : ℕ) (l items : List Event) (last : Event)
    → length l ≡ suc (suc m)
    → take (suc m) l ≡ items
    → get_elem? l m ≡ some last
    → page_of f (suc m) l
      ≡ record { items = items; next_cursor = some (encode_cursor f last.ts last.id) }
page_cut f m l items last k t g = ground (arith)

module _ (f : Formats) (text_lt : String → String → Bool) (stored : QueryOrder → List Event)
    (select : Select → Option (List EventRow)) (v : IsFormats f)
    (d : IsDatabase f text_lt stored select) where
  -- The events that are left once those up to `last` have been given.
  pub left_over-last :
      (q : QueryFilter) (pre xs : List Event) (last : Event) (ys : List Event)
      → keep (wanted q) (stored q.order) ≡ (pre ++ xs) ++ last ∷ ys
      → left_over stored q (some (last.ts, last.id)) ≡ ys
  left_over-last q pre xs last ys e =
      let o = q.order in
      let sorted : IsSorted o ((pre ++ xs) ++ last ∷ ys) =
        subst (IsSorted o) e (keep-IsSorted o (wanted q) (stored o) (d.sorted o)) in
      keep-keep (wanted q) (past o last.ts last.id) (stored o)
      ∙ ap (keep (past o last.ts last.id)) e
      ∙ keep-past o (pre ++ xs) last ys sorted

  pub last-IsStorable :
      (q : QueryFilter) (xs : List Event) (last : Event) (ys : List Event)
      → keep (wanted q) (stored q.order) ≡ xs ++ last ∷ ys
      → IsStorable last
  last-IsStorable q xs last ys e = All-at IsStorable xs last ys (
      subst (All IsStorable) e
        (All-keep IsStorable (wanted q) (stored q.order) (d.storable q.order)))

  pub query_page :
      (q : QueryFilter) (mark : Option (Time × ℕ)) (m : ℕ)
      → q.cursor ≡ cursor_of f mark
      → IsBound q.since
      → IsBound q.until
      → IsMark mark
      → effective_limit q.limit ≡ suc m
      → query_events f select q
        ≡ query_ok (page_of f (suc m) (take (suc (suc m)) (left_over stored q mark)))
  query_page q mark m c a b k e =
      let e' : effective_limit q.limit + 1 ≡ suc (suc m) = omega (arith, e) in
      query_events_lem f text_lt stored select v d q mark c a b k
      ∙ ap
          (λ l.
            query_ok (page_of f l (take (effective_limit q.limit + 1) (left_over stored q mark))))
          e
      ∙ ap (λ l. query_ok (page_of f (suc m) (take l (left_over stored q mark)))) e'

  pub follow_from :
      (n : ℕ) (q : QueryFilter) (mark : Option (Time × ℕ)) (pre : List Event) (m : ℕ)
      → q.cursor ≡ cursor_of f mark
      → IsBound q.since
      → IsBound q.until
      → IsMark mark
      → effective_limit q.limit ≡ suc m
      → keep (wanted q) (stored q.order) ≡ pre ++ left_over stored q mark
      → follow f select n q ≡ some (take (n * suc m) (left_over stored q mark))
  unfolding follow
  follow_from zero q mark pre m c a b k e w =
      let none_left : 0 ≡ 0 * suc m = omega arith in
      ap (λ i. some (take i (left_over stored q mark))) none_left
  follow_from (suc n) q mark pre m c a b k e w =
      go (λ q' mark' pre' c' a' b' k' e' w'. follow_from n q' mark' pre' m c' a' b' k' e' w')
        (split m (left_over stored q mark)) (query_page q mark m c a b k e)
    where
      go :
          ((q' : QueryFilter) (mark' : Option (Time × ℕ)) (pre' : List Event)
            → q'.cursor ≡ cursor_of f mark'
            → IsBound q'.since
            → IsBound q'.until
            → IsMark mark'
            → effective_limit q'.limit ≡ suc m
            → keep (wanted q') (stored q'.order) ≡ pre' ++ left_over stored q' mark'
            → follow f select n q' ≡ some (take (n * suc m) (left_over stored q' mark')))
          → Split m (left_over stored q mark)
          → query_events f select q
            ≡ query_ok (page_of f (suc m) (take (suc (suc m)) (left_over stored q mark)))
          → follow f select (suc n) q ≡ some (take (suc n * suc m) (left_over stored q mark))
      go again (whole h t) r =
          let l = left_over stored q mark in
          let r' : query_events f select q ≡ query_ok (record { items = l; next_cursor = none }) =
            r ∙ ap (λ t. query_ok (page_of f (suc m) t)) t ∙ ap query_ok (page_whole f m l h) in
          ground (arith, r', take_all (suc n * suc m) l (ground (arith, h)))
      go again (cut_at xs last ys l n' t p g) r =
          let q' = record q { cursor = some (encode_cursor f last.ts last.id) } in
          let w' : keep (wanted q) (stored q.order) ≡ (pre ++ xs) ++ last ∷ ys =
            w ∙ ap (λ t. pre ++ t) l ∙ sym (append_assoc pre xs (last ∷ ys)) in
          let s : IsStorable last = last-IsStorable q (pre ++ xs) last ys w' in
          let mark' : Option (Time × ℕ) = some (last.ts, last.id) in
          let after : left_over stored q mark' ≡ ys = left_over-last q pre xs last ys w' in
          let w2 : keep (wanted q) (stored q.order)
              ≡ ((pre ++ xs) ++ last ∷ []) ++ left_over stored q mark' =
            w'
            ∙ sym (append_assoc (pre ++ xs) (last ∷ []) ys)
            ∙ ap (λ t. ((pre ++ xs) ++ last ∷ []) ++ t) (sym after) in
          let rest : follow f select n q' ≡ some (take (n * suc m) (left_over stored q mark')) =
            again q' mark' ((pre ++ xs) ++ last ∷ []) refl a b (s.ts, s.id) e w2 in
          let page =
            page_cut f m (take (suc (suc m)) (left_over stored q mark)) (xs ++ last ∷ []) last t p
              g in
          let whole_page =
            take-append (suc n * suc m) (n * suc m) xs last ys (ground (arith, n')) in
          ground (arith, r, page, rest, after, whole_page, l)

-- A caller who starts a query with no cursor and follows the cursors n times over gets no error, and
-- the first n pages of the events that the filter wants, each event once and in the query's order: n
-- times the limit of them, or all if there are fewer. So enough queries give all of them.
pub follow-take :
    (f : Formats) (text_lt : String → String → Bool) (stored : QueryOrder → List Event)
    (select : Select → Option (List EventRow)) (n : ℕ) (q : QueryFilter)
    → IsFormats f
    → IsDatabase f text_lt stored select
    → q.cursor ≡ none
    → IsBound q.since
    → IsBound q.until
    → follow f select n q
      ≡ some (take (n * effective_limit q.limit) (keep (wanted q) (stored q.order)))
follow-take f text_lt stored select n q v d c a b =
    let (m, e) = effective_limit-suc q.limit in
    let start : left_over stored q none ≡ keep (wanted q) (stored q.order) =
      keep-keep (wanted q) (λ e. true) (stored q.order) ∙ keep-All (λ e. true) _ (All-true _) in
    follow_from f text_lt stored select v d n q none [] m c a b tt e (sym start)
    ∙ ap (λ l. some (take (n * suc m) l)) start
    ∙ ap (λ l. some (take (n * l) (keep (wanted q) (stored q.order)))) (sym e)
