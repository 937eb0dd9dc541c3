-- ===== src/Ring/Window.antt =====
-- The cells of the ring that hold elements, read round the end of the buffer.
use native.Mathlib.Nat.{mod-eq_of_lt, mod-eq-sub-mod, mod-add-mod, add-zero}
use cc_snippets.Prelude.{
  ℕ, zero, suc, ◌+◌, ◌%◌, ◌≤◌, ◌<◌, ◌≡◌, refl, sym, ap, ap₂, ◌≢◌, List, [], ◌∷◌, ◌++◌, arith,
  length, set, get_or, length-append,
}

-- Steps `a` and `b` round a ring of `s` cells from one start end in different cells.
pub add-mod-ne : (s start a b : ℕ) → start < s → a < b → b < s → (start + a) % s ≢ (start + b) % s
add-mod-ne s start a b h ab bs = grind (arith, mod-eq_of_lt, mod-eq-sub-mod)

-- A step on from a cell, and a step on from the start.
pub add-mod-suc : (s start n : ℕ) → ((start + 1) % s + n) % s ≡ (start + suc n) % s
add-mod-suc s start n = rw mod-add-mod (ap (λ k. k % s) (omega arith))

module _ {ℓ} {A : Type ℓ} (blank : A) where
  pub get_or-set_same :
      (buf : List A) (i : ℕ) (v : A) → i < length buf → get_or (set buf i v) i blank ≡ v
  get_or-set_same [] i v h = absurd (omega arith)
  get_or-set_same (x ∷ xs) zero v h = refl
  get_or-set_same (x ∷ xs) (suc i) v h = get_or-set_same xs i v (omega arith)

  pub get_or-set_other :
      (buf : List A) (i j : ℕ) (v : A) → i ≢ j → get_or (set buf i v) j blank ≡ get_or buf j blank
  get_or-set_other [] i j v h = refl
  get_or-set_other (x ∷ xs) zero zero v h = absurd (h refl)
  get_or-set_other (x ∷ xs) zero (suc j) v h = refl
  get_or-set_other (x ∷ xs) (suc i) zero v h = refl
  get_or-set_other (x ∷ xs) (suc i) (suc j) v h = get_or-set_other xs i j v (λ e. h (ap suc e))

  -- the `n` elements from index `start` on, in a ring of `s` cells
  unfoldable pub window : List A → ℕ → ℕ → ℕ → List A
  window buf s start zero = []
  window buf s start (suc n) = window buf s start n ++ get_or buf ((start + n) % s) blank ∷ []

  pub length-window : (buf : List A) (s start n : ℕ) → length (window buf s start n) ≡ n
  unfolding window
  length-window buf s start zero = refl
  length-window buf s start (suc n) = omega (
    arith,
    length-append (window buf s start n) (get_or buf ((start + n) % s) blank ∷ []),
    length-window buf s start n,
  )

  -- A write behind the first `k` cells leaves them alone.
  window-set :
      (buf : List A) (s start n k : ℕ) (v : A)
      → start < s
      → k ≤ n
      → n < s
      → window (set buf ((start + n) % s) v) s start k ≡ window buf s start k
  unfolding window
  window-set buf s start n zero v hs hk hn = refl
  window-set buf s start n (suc k) v hs hk hn =
      ap₂ (λ xs x. xs ++ x ∷ []) (window-set buf s start n k v hs (omega arith) hn)
        (get_or-set_other buf _ _ v (λ e. add-mod-ne s start k n hs (omega arith) hn (cc)))

  -- Writing the first free cell puts the element behind the others.
  pub window-push :
      (buf : List A) (s start n : ℕ) (v : A)
      → start < s
      → n < s
      → s ≤ length buf
      → (start + n) % s < s
      → window (set buf ((start + n) % s) v) s start (suc n) ≡ window buf s start n ++ v ∷ []
  unfolding window
  window-push buf s start n v hs hn hb hm =
      ap₂ (λ xs x. xs ++ x ∷ []) (window-set buf s start n n v hs (omega arith) hn)
        (get_or-set_same buf _ v (omega arith))

  -- The same writes leave the `n` elements before it alone.
  pub window-write :
      (buf : List A) (s start n : ℕ) (v : A)
      → start < s
      → n < s
      → window (set buf ((start + n) % s) v) s start n ≡ window buf s start n
  window-write buf s start n v hs hn = window-set buf s start n n v hs (omega arith) hn

  -- The first element, and the others from the next cell on.
  pub window-pop :
      (buf : List A) (s start n : ℕ)
      → start < s
      → window buf s start (suc n) ≡ get_or buf start blank ∷ window buf s ((start + 1) % s) n
  unfolding window
  window-pop buf s start zero hs = rw (add-zero, mod-eq_of_lt hs)
  window-pop buf s start (suc n) hs =
      ap₂ (λ xs i. xs ++ get_or buf i blank ∷ []) (window-pop buf s start n hs)
        (sym (add-mod-suc s start n))
