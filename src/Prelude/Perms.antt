-- ===== src/Prelude/Perms.antt =====
-- Permutations against native lengths and against properties of every element.
use mathlib.Core.List.{Permᴰ, Perm}
use mathlib.Core.Logic.{∥∥₁_elim}
use mathlib.Core.HLevel.{×_prop}
use mathlib.Core.Path.{◌≡◌, refl, ap, subst, ◌∙◌}
use mathlib.Core.List.{List, [], ◌∷◌}
use native.Mathlib.Nat.{ℕ_set}
use Prim.Native.Nat.{suc}
use snowy.Prelude.Lists.{length, All}

Permᴰ-length {ℓ} : {A : Type ℓ} {xs ys : List A} → Permᴰ xs ys → length xs ≡ length ys
Permᴰ-length Permᴰ.nil = refl
Permᴰ-length (Permᴰ.cons x p) = ap suc (Permᴰ-length p)
Permᴰ-length (Permᴰ.swap x y) = refl
Permᴰ-length (Permᴰ.trans p q) = Permᴰ-length p ∙ Permᴰ-length q

pub length-perm {ℓ} : {A : Type ℓ} {xs ys : List A} → Perm xs ys → length xs ≡ length ys
length-perm p = ∥∥₁_elim p (ℕ_set _ _) Permᴰ-length

module _ {ℓ κ} {A : Type ℓ} (P : A → Type κ) where
  Permᴰ-All : {xs ys : List A} → Permᴰ xs ys → All P xs → All P ys
  Permᴰ-All Permᴰ.nil h = h
  Permᴰ-All (Permᴰ.cons x p) h = (subst P x h.0, Permᴰ-All p h.1)
  Permᴰ-All (Permᴰ.swap x y) h = (subst P y h.1.0, (subst P x h.0, h.1.1))
  Permᴰ-All (Permᴰ.trans p q) h = Permᴰ-All q (Permᴰ-All p h)

  module _ (prop : (a : A) → IsProp (P a)) where
    All-prop : (xs : List A) → IsProp (All P xs)
    All-prop [] = λ x y. refl
    All-prop (x ∷ xs) = ×_prop (prop x) (All-prop xs)

    pub All-perm : {xs ys : List A} → Perm xs ys → All P xs → All P ys
    All-perm {ys} p h = ∥∥₁_elim p (All-prop ys) (λ d. Permᴰ-All d h)
