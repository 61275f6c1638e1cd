-- ===== src/Notify/Coalesce.antt =====
-- The coalescing of internal/notify/notifier.go, against a plain account of it.
use vrclog_companion.Prelude.{
  ℕ, zero, suc, ◌≡◌, refl, sym, ◌∙◌, String, Bool, true, false, not, ◌&&◌, Option, none, some, List,
  [], ◌∷◌, ◌++◌, length, str_eq, is_empty, if◌then◌else◌, arith, Bool-cases, Option-cases, inl, inr,
  All, eq_of_str_eq, str_eq_refl,
}
use vrclog_companion.Derive.{DerivedEvent}
use vrclog_companion.Notify.Queue.{
  event_key, find_index, set, coalesce_one, coalesce_loop, coalesce_queue,
}

-- The two events have the same key, which is not empty.
abbrev pub is_twin : DerivedEvent → DerivedEvent → Bool
is_twin ev x = not (is_empty (event_key ev)) && str_eq (event_key x) (event_key ev)

-- The event takes the place of the one with its key, or comes last.
abbrev pub replace_or_append : DerivedEvent → List DerivedEvent → List DerivedEvent
replace_or_append ev [] = ev ∷ []
replace_or_append ev (x ∷ l) = if is_twin ev x then ev ∷ l else x ∷ replace_or_append ev l

-- The whole queue, event by event.
abbrev pub replace_all : List DerivedEvent → List DerivedEvent → List DerivedEvent
replace_all [] l = l
replace_all (ev ∷ queue) l = replace_all queue (replace_or_append ev l)

-- The first place of a key.
abbrev index_of : String → List DerivedEvent → Option ℕ
index_of key [] = none
index_of key (x ∷ l) =
    if str_eq (event_key x) key
    then some 0
    else elim (index_of key l) [ none ↦ none | some i ↦ some (suc i) ]

-- The map has the first place of each key.
abbrev IsIndex : List (String × ℕ) → List DerivedEvent → Type 0
IsIndex seen l = (key : String) → is_empty key ≡ false → find_index key seen ≡ index_of key l

replace-none :
    (ev : DerivedEvent) (l : List DerivedEvent)
    → index_of (event_key ev) l ≡ none
    → replace_or_append ev l ≡ l ++ ev ∷ []
replace-none ev [] h = refl
replace-none ev (x ∷ l) h = ground (arith, h, replace-none ev l)

replace-some :
    (ev : DerivedEvent) (l : List DerivedEvent) (i : ℕ)
    → is_empty (event_key ev) ≡ false
    → index_of (event_key ev) l ≡ some i
    → replace_or_append ev l ≡ set l i ev
replace-some ev [] i k h = cc
replace-some ev (x ∷ l) zero k h = ground (arith, k, h)
replace-some ev (x ∷ l) (suc i) k h = ground (arith, k, h, replace-some ev l i k)

replace_keyless :
    (ev : DerivedEvent) (l : List DerivedEvent)
    → is_empty (event_key ev) ≡ true
    → replace_or_append ev l ≡ l ++ ev ∷ []
replace_keyless ev [] h = refl
replace_keyless ev (x ∷ l) h = ground (arith, h, replace_keyless ev l h)

-- The first places after an append.
index_of-append :
    (key : String) (l : List DerivedEvent) (ev : DerivedEvent)
    → index_of key (l ++ ev ∷ []) ≡ elim (index_of key l) as (λ o. Option ℕ) [
      | some i ↦ some i
      | none ↦ if str_eq (event_key ev) key then some (length l) else none
    ]
index_of-append key [] ev = refl
index_of-append key (x ∷ l) ev = ground (arith, index_of-append key l ev)

index_of-set :
    (key : String) (l : List DerivedEvent) (i : ℕ) (ev : DerivedEvent)
    → index_of (event_key ev) l ≡ some i
    → index_of key (set l i ev) ≡ index_of key l
index_of-set key [] i ev h = refl
index_of-set key (x ∷ l) zero ev h = ground (arith, h, eq_of_str_eq (event_key x) (event_key ev))
index_of-set key (x ∷ l) (suc i) ev h = ground (arith, h, index_of-set key l i ev)

empty_ne : (a b : String) → is_empty a ≡ true → is_empty b ≡ false → str_eq a b ≡ false
empty_ne a b h k = ground (arith, eq_of_str_eq a b, h, k)

keyless-IsIndex :
    (ev : DerivedEvent) (seen : List (String × ℕ)) (l : List DerivedEvent)
    → IsIndex seen l
    → is_empty (event_key ev) ≡ true
    → IsIndex seen (l ++ ev ∷ [])
keyless-IsIndex ev seen l v h key k =
    ground (arith, v key k, index_of-append key l ev, empty_ne (event_key ev) key h k)

set-IsIndex :
    (ev : DerivedEvent) (seen : List (String × ℕ)) (l : List DerivedEvent) (i : ℕ)
    → IsIndex seen l
    → index_of (event_key ev) l ≡ some i
    → IsIndex seen (set l i ev)
set-IsIndex ev seen l i v h key k = v key k ∙ sym (index_of-set key l i ev h)

append-IsIndex :
    (ev : DerivedEvent) (seen : List (String × ℕ)) (l : List DerivedEvent)
    → IsIndex seen l
    → index_of (event_key ev) l ≡ none
    → IsIndex ((event_key ev, length l) ∷ seen) (l ++ ev ∷ [])
append-IsIndex ev seen l v h key k =
    ground (arith, v key k, index_of-append key l ev, h, eq_of_str_eq (event_key ev) key)

coalesce_loop-replace_all :
    (queue : List DerivedEvent) (seen : List (String × ℕ)) (l : List DerivedEvent)
    → IsIndex seen l
    → coalesce_loop queue seen l ≡ replace_all queue l
unfolding coalesce_loop coalesce_one
coalesce_loop-replace_all [] seen l v = refl
coalesce_loop-replace_all (ev ∷ queue) seen l v = elim (Bool-cases (is_empty (event_key ev))) [
  | inl e ↦ ground (
    arith,
    e,
    replace_keyless ev l e,
    coalesce_loop-replace_all queue seen (l ++ ev ∷ []) (keyless-IsIndex ev seen l v e),
  )
  | inr k ↦ elim (Option-cases (index_of (event_key ev) l)) [
    | inl e ↦ ground (
      arith,
      k,
      e,
      v (event_key ev) k,
      replace-none ev l e,
      coalesce_loop-replace_all queue ((event_key ev, length l) ∷ seen) (l ++ ev ∷ [])
          (append-IsIndex ev seen l v e),
    )
    | inr (i, e) ↦ ground (
      arith,
      k,
      e,
      v (event_key ev) k,
      replace-some ev l i k e,
      coalesce_loop-replace_all queue seen (set l i ev) (set-IsIndex ev seen l i v e),
    )
  ]
]

-- On every queue, the loop with its map of indices and its writes by index gives what one gets by
-- taking the events in order, where each takes the place of the one with its key, or comes last if it
-- is the first of its key or has none.
pub coalesce_queue-replace_all :
    (queue : List DerivedEvent) → coalesce_queue queue ≡ replace_all queue []
unfolding coalesce_queue
coalesce_queue-replace_all [] = refl
coalesce_queue-replace_all (ev ∷ []) = refl
coalesce_queue-replace_all (ev ∷ next ∷ queue) =
    ground (arith, coalesce_loop-replace_all (ev ∷ next ∷ queue) [] [] (λ key k. refl))

-- No two events of the queue have one key.
abbrev pub IsCoalesced : List DerivedEvent → Type 0
IsCoalesced [] = Unit
IsCoalesced (x ∷ l) = All (λ y. is_twin x y ≡ false) l × IsCoalesced l

twin_comm : (x y : DerivedEvent) → is_twin x y ≡ false → is_twin y x ≡ false
twin_comm x y h = ground (
  arith,
  h,
  eq_of_str_eq (event_key x) (event_key y),
  str_eq_refl (event_key x),
  str_eq_refl (event_key y),
)

twin_eq : (ev y : DerivedEvent) → is_twin ev y ≡ true → event_key ev ≡ event_key y
twin_eq ev y h = ground (arith, h, eq_of_str_eq (event_key y) (event_key ev))

apart-replace :
    (x ev : DerivedEvent) (l : List DerivedEvent)
    → is_twin x ev ≡ false
    → All (λ y. is_twin x y ≡ false) l
    → All (λ y. is_twin x y ≡ false) (replace_or_append ev l)
apart-replace x ev [] h a = (h, tt)
apart-replace x ev (y ∷ l) h a = elim (Bool-cases (is_twin ev y)) [
  | inl e ↦ rw e (h, a.1)
  | inr e ↦ rw e (a.0, apart-replace x ev l h a.1)
]

apart-twin :
    (ev y : DerivedEvent) (l : List DerivedEvent)
    → event_key ev ≡ event_key y
    → All (λ z. is_twin y z ≡ false) l
    → All (λ z. is_twin ev z ≡ false) l
apart-twin ev y [] e a = tt
apart-twin ev y (z ∷ l) e a = (rw e a.0, apart-twin ev y l e a.1)

pub replace-IsCoalesced :
    (ev : DerivedEvent) (l : List DerivedEvent)
    → IsCoalesced l
    → IsCoalesced (replace_or_append ev l)
replace-IsCoalesced ev [] c = (tt, tt)
replace-IsCoalesced ev (y ∷ l) c = elim (Bool-cases (is_twin ev y)) [
  | inl e ↦ rw e (apart-twin ev y l (twin_eq ev y e) c.0, c.1)
  | inr e ↦ rw e (apart-replace y ev l (twin_comm ev y e) c.0, replace-IsCoalesced ev l c.1)
]

replace_all-IsCoalesced :
    (queue l : List DerivedEvent) → IsCoalesced l → IsCoalesced (replace_all queue l)
replace_all-IsCoalesced [] l c = c
replace_all-IsCoalesced (ev ∷ queue) l c =
    replace_all-IsCoalesced queue (replace_or_append ev l) (replace-IsCoalesced ev l c)

pub coalesce_queue-IsCoalesced : (queue : List DerivedEvent) → IsCoalesced (coalesce_queue queue)
coalesce_queue-IsCoalesced queue =
    rw (coalesce_queue-replace_all queue) (replace_all-IsCoalesced queue [] tt)
