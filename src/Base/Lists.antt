-- ===== src/Base/Lists.antt =====
-- Lists measured by native numbers, and searched by Boolean tests.
use Prim.Native.Nat.{ℕ, suc, ◌+◌}
use mathlib.Core.Path.{◌≡◌, refl}
use mathlib.Core.Bool.{◌&&◌, not, true, Bool, false, ◌||◌}
use mathlib.Core.List.{List, [], ◌∷◌, ◌++◌}
use native.Mathlib.Omega.{arith}

-- A predicate on every element, which computes to a tuple.
abbrev pub All {ℓ κ} : {A : Type ℓ} → (A → Type κ) → List A → Type κ
All P [] = Unit
All P (x ∷ xs) = P x × All P xs

module _ {ℓ} {A : Type ℓ} where
  abbrev pub length : List A → ℕ
  length [] = 0
  length (x ∷ xs) = suc (length xs)

  abbrev pub any : (A → Bool) → List A → Bool
  any p [] = false
  any p (x ∷ xs) = p x || any p xs

  pub length-append : (xs ys : List A) → length (xs ++ ys) ≡ length xs + length ys
  length-append [] ys = omega arith
  length-append (x ∷ xs) ys = omega (arith, length-append xs ys)

  pub any-append : (p : A → Bool) (xs ys : List A) → any p (xs ++ ys) ≡ (any p xs || any p ys)
  any-append p [] ys = refl
  any-append p (x ∷ xs) ys = ground (arith, any-append p xs ys)

  -- Whether every element that `q` holds of comes after one that `p` holds of.
  abbrev pub preceded : (p q : A → Bool) → List A → Bool
  preceded p q [] = true
  preceded p q (x ∷ xs) = p x || (not (q x) && preceded p q xs)

  pub preceded-append :
      (p q : A → Bool) (xs : List A) (y : A)
      → preceded p q xs ≡ true
      → (not (q y) || any p xs) ≡ true
      → preceded p q (xs ++ y ∷ []) ≡ true
  preceded-append p q [] y h k = ground (arith, h, k)
  preceded-append p q (x ∷ xs) y h k = ground (arith, h, k, preceded-append p q xs y)
