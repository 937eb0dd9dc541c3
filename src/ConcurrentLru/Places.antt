-- ===== src/ConcurrentLru/Places.antt =====
-- The threads of null/concurrent_lru_cache.h by their places in a list.
use mathlib.Core.Option.{some-injective}
use cc_snippets.Prelude.{
  ℕ, zero, suc, ◌≡◌, ◌≢◌, refl, ap, ◌∙◌, List, [], ◌∷◌, some, get_elem?, set, replicate, arith, inl,
  inr, ◌⊎◌,
}
use cc_snippets.Lru.Refine.{Call}
use cc_snippets.ConcurrentLru.{Point, Thread, outside, inside}

module _ {K V : Type 0} where
  pub get_elem?-set_cases :
      (l : List (Thread K V)) (i j : ℕ) (t u : Thread K V)
      → get_elem? (set l i t) j ≡ some u
      → ((i ≡ j) × (t ≡ u)) ⊎ ((i ≢ j) × (get_elem? l j ≡ some u))
  get_elem?-set_cases [] i j t u e = cc
  get_elem?-set_cases (x ∷ l) zero zero t u e = inl (refl, some-injective t u e)
  get_elem?-set_cases (x ∷ l) zero (suc j) t u e = inr (λ h. absurd (omega (arith, h)), e)
  get_elem?-set_cases (x ∷ l) (suc i) zero t u e = inr (λ h. absurd (omega (arith, h)), e)
  get_elem?-set_cases (x ∷ l) (suc i) (suc j) t u e = elim (get_elem?-set_cases l i j t u e) [
    | inl (h, q) ↦ inl (ap suc h, q)
    | inr (h, q) ↦ inr (λ k. h (omega (arith, k)), q)
  ]

  pub get_elem?-set_same :
      (l : List (Thread K V)) (i : ℕ) (t u : Thread K V)
      → get_elem? l i ≡ some t
      → get_elem? (set l i u) i ≡ some u
  get_elem?-set_same [] i t u e = cc
  get_elem?-set_same (x ∷ l) zero t u e = refl
  get_elem?-set_same (x ∷ l) (suc i) t u e = get_elem?-set_same l i t u e

  pub outside-ne-inside :
      (l : List (Thread K V)) (i j : ℕ) (d : Call K V) (p : Point K V)
      → get_elem? l i ≡ some outside
      → get_elem? l j ≡ some (inside d p)
      → i ≢ j
  outside-ne-inside l i j d p g h e =
      let q : get_elem? l i ≡ some (inside d p) = ap (get_elem? l) e ∙ h in cc

  pub get_elem?-outside :
      (n i : ℕ) (t : Thread K V) → get_elem? (replicate n outside) i ≡ some t → outside ≡ t
  get_elem?-outside zero i t e = cc
  get_elem?-outside (suc n) zero t e = some-injective outside t e
  get_elem?-outside (suc n) (suc i) t e = get_elem?-outside n i t e
