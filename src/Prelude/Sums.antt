-- ===== src/Prelude/Sums.antt =====
-- Sums over the elements of a list.
use Prim.Native.Nat.{ℕ, zero, suc, ◌+◌, ◌≤◌}
use mathlib.Core.Path.{◌≡◌, refl}
use mathlib.Core.List.{List, [], ◌∷◌}
use mathlib.Core.Option.{some}
use native.Mathlib.Omega.{arith}
use cc_snippets.Prelude.Lists.{get_elem?, set, replicate}

module _ {ℓ} {A : Type ℓ} (f : A → ℕ) where
  unfoldable pub sum_by : List A → ℕ
  sum_by [] = 0
  sum_by (x ∷ l) = f x + sum_by l

  pub sum_by-replicate : (n : ℕ) (x : A) → f x ≡ 0 → sum_by (replicate n x) ≡ 0
  unfolding sum_by
  sum_by-replicate zero x e = refl
  sum_by-replicate (suc n) x e = omega (arith, e, sum_by-replicate n x e)

  pub sum_by-set :
      (l : List A) (i : ℕ) (x y : A)
      → get_elem? l i ≡ some x
      → sum_by (set l i y) + f x ≡ sum_by l + f y
  unfolding sum_by
  sum_by-set [] i x y e = cc
  sum_by-set (z ∷ l) zero x y e = ground arith
  sum_by-set (z ∷ l) (suc i) x y e = omega (arith, sum_by-set l i x y e)

  pub sum_by-ge : (l : List A) (i : ℕ) (x : A) → get_elem? l i ≡ some x → f x ≤ sum_by l
  unfolding sum_by
  sum_by-ge [] i x e = cc
  sum_by-ge (z ∷ l) zero x e = ground arith
  sum_by-ge (z ∷ l) (suc i) x e = omega (arith, sum_by-ge l i x e)

  -- The sum of the other elements.
  pub sum_by-split :
      (l : List A) (i : ℕ) (x y : A)
      → get_elem? l i ≡ some x
      → (rest : ℕ) × (sum_by l ≡ rest + f x) × (sum_by (set l i y) ≡ rest + f y)
  unfolding sum_by
  sum_by-split [] i x y e = cc
  sum_by-split (z ∷ l) zero x y e = (sum_by l, ground arith, ground arith)
  sum_by-split (z ∷ l) (suc i) x y e =
      let (rest, p, q) = sum_by-split l i x y e in (f z + rest, omega (arith, p), omega (arith, q))
