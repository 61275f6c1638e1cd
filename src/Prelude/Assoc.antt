-- ===== src/Prelude/Assoc.antt =====
-- A Go map from texts, as an association list in the order of insertion.
use text.Mathlib.TextEquality.{eq_iff}
use mathlib.Core.Path.{◌≡◌, refl, ap, ◌∙◌}
use mathlib.Core.Bool.{Bool, true, false, not}
use mathlib.Core.Option.{Option, none, some}
use mathlib.Core.List.{List, [], ◌∷◌}
use Prim.Native.String.{String}
use native.Mathlib.Omega.{arith}
use vrclog_companion.Prelude.Tests.{if◌then◌else◌}
use vrclog_companion.Prelude.Lists.{keep}
use vrclog_companion.Prelude.Text.{str_eq}

module _ {ℓ} {V : Type ℓ} where
  -- `v, exists := m[key]`.
  abbrev pub find : String → List (String × V) → Option V
  find key [] = none
  find key ((k, v) ∷ l) = if str_eq k key then some v else find key l

  -- `m[key] = v`, which also stands for a write through the pointer of the entry.
  abbrev pub put : String → V → List (String × V) → List (String × V)
  put key v [] = (key, v) ∷ []
  put key v ((k, w) ∷ l) = if str_eq k key then (k, v) ∷ l else (k, w) ∷ put key v l

  -- `delete(m, key)`.
  abbrev pub delete : String → List (String × V) → List (String × V)
  delete key = keep (λ e. not (str_eq e.0 key))

  pub find-put :
      (key j : String) (v : V) (l : List (String × V))
      → find j (put key v l) ≡ (if str_eq key j then some v else find j l)
  find-put key j v [] = refl
  find-put key j v ((k, w) ∷ l) =
      ground (arith, find-put key j v l, eq_iff k key, eq_iff k j, eq_iff key j)

  pub find-delete :
      (key j : String) (l : List (String × V))
      → find j (delete key l) ≡ (if str_eq key j then none else find j l)
  find-delete key j [] = ground arith
  find-delete key j ((k, w) ∷ l) =
      ground (arith, find-delete key j l, eq_iff k key, eq_iff k j, eq_iff key j)

  -- No key stands twice.
  abbrev pub IsKeyed : List (String × V) → Type ℓ
  IsKeyed [] = Unit
  IsKeyed ((k, v) ∷ l) = (find k l ≡ none) × IsKeyed l

  abbrev pub keep_if : (V → Bool) → Option V → Option V
  keep_if test none = none
  keep_if test (some v) = if test v then some v else none

  pub find-keep :
      (key : String) (test : V → Bool) (l : List (String × V))
      → IsKeyed l
      → find key (keep (λ e. test e.1) l) ≡ keep_if test (find key l)
  find-keep key test [] u = refl
  find-keep key test ((k, v) ∷ l) u =
      ground (arith, u.0, find-keep key test l u.1, eq_iff k key, find-keep k test l u.1)

  pub keep-IsKeyed :
      (test : V → Bool) (l : List (String × V)) → IsKeyed l → IsKeyed (keep (λ e. test e.1) l)
  keep-IsKeyed test [] u = tt
  keep-IsKeyed test ((k, v) ∷ l) u =
      let rest = keep-IsKeyed test l u.1 in
      elim (test v)
        as (λ b. IsKeyed (if b then (k, v) ∷ keep (λ e. test e.1) l else keep (λ e. test e.1) l)) [
          | true ↦ (find-keep k test l u.1 ∙ ap (keep_if test) u.0, rest)
          | false ↦ rest
        ]

  pub put-IsKeyed :
      (key : String) (v : V) (l : List (String × V)) → IsKeyed l → IsKeyed (put key v l)
  put-IsKeyed key v [] u = (refl, tt)
  put-IsKeyed key v ((k, w) ∷ l) u =
      let rest = put-IsKeyed key v l u.1 in
      elim (str_eq k key)
          as (λ b. str_eq k key ≡ b → IsKeyed (if b then (k, v) ∷ l else (k, w) ∷ put key v l)) [
            | true ↦ λ e. u
            | false ↦
                λ e. (ground (arith, find-put key k v l, e, eq_iff k key, eq_iff key k, u.0), rest)
          ]
        refl
