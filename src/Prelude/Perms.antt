-- ===== src/Prelude/Perms.antt =====
-- Boolean searches in a list whose order is not known.
use mathlib.Core.Path.{◌≡◌, refl, sym, ap, ◌∙◌}
use mathlib.Core.Logic.{inl, inr, ∥∥₁_elim, ∥∥₁_map}
use mathlib.Core.Bool.{Bool, Bool-set}
use mathlib.Core.List.{List, Perm, Permᴰ}
use mathlib.Core.List.Permᴰ
use native.Mathlib.Omega.{arith}
use vrclog_companion.Prelude.Tests.{Bool-cases}
use vrclog_companion.Prelude.Lists.{any, keep}

module _ {ℓ} {A : Type ℓ} (p : A → Bool) where
  any-Permᴰ : {xs ys : List A} → Permᴰ xs ys → any p xs ≡ any p ys
  any-Permᴰ Permᴰ.nil = refl
  any-Permᴰ (Permᴰ.cons e d) = rw (ap p e, any-Permᴰ d) refl
  any-Permᴰ (Permᴰ.swap {a = a} {b = b} e e') =
      let first = ap p e in let second = ap p e' in ground (arith, first, second)
  any-Permᴰ (Permᴰ.trans d d') = any-Permᴰ d ∙ any-Permᴰ d'

  pub any-Perm : {xs ys : List A} → Perm xs ys → any p xs ≡ any p ys
  any-Perm h = ∥∥₁_elim h (Bool-set _ _) (λ d. any-Permᴰ d)

  keep-Permᴰ : {xs ys : List A} → Permᴰ xs ys → Permᴰ (keep p xs) (keep p ys)
  keep-Permᴰ Permᴰ.nil = Permᴰ.nil
  keep-Permᴰ (Permᴰ.cons {a = a} e d) = elim (Bool-cases (p a)) [
    | inl h ↦ rw (h, sym (ap p e) ∙ h) (Permᴰ.cons e (keep-Permᴰ d))
    | inr h ↦ rw (h, sym (ap p e) ∙ h) (keep-Permᴰ d)
  ]
  keep-Permᴰ (Permᴰ.swap {a = a} {b = b} e e') = elim (Bool-cases (p a)) [
    | inl h ↦ elim (Bool-cases (p b)) [
      | inl k ↦ rw (h, k, sym (ap p e) ∙ h, sym (ap p e') ∙ k) (Permᴰ.swap e e')
      | inr k ↦ rw (h, k, sym (ap p e) ∙ h, sym (ap p e') ∙ k) (Permᴰ.cons e (Permᴰ.refl _))
    ]
    | inr h ↦ elim (Bool-cases (p b)) [
      | inl k ↦ rw (h, k, sym (ap p e) ∙ h, sym (ap p e') ∙ k) (Permᴰ.cons e' (Permᴰ.refl _))
      | inr k ↦ rw (h, k, sym (ap p e) ∙ h, sym (ap p e') ∙ k) (Permᴰ.refl _)
    ]
  ]
  keep-Permᴰ (Permᴰ.trans d d') = Permᴰ.trans (keep-Permᴰ d) (keep-Permᴰ d')

  pub keep-Perm : {xs ys : List A} → Perm xs ys → Perm (keep p xs) (keep p ys)
  keep-Perm {xs} {ys} h = ∥∥₁_map {B = Permᴰ (keep p xs) (keep p ys)} h (λ d. keep-Permᴰ d)
