-- ===== src/Ring/Contents.antt =====
-- The elements of a ring of null/spsc_ring_buffer.h, as a queue with the oldest first.
use native.Mathlib.Nat.{mod-eq_of_lt, mod-eq-sub-mod, mod-lt}
use cc_snippets.Prelude.{ℕ, ◌+◌, ◌-◌, ◌%◌, ◌^◌, ◌<◌, ◌≡◌, sym, List, arith, length, dec_lt}
use cc_snippets.Ring.{Ring}
use cc_snippets.Ring.Window.{window, length-window}
use cc_snippets.Ring.Slots.{Cells}

-- How many cells hold an element, in a ring of `capacity + 1` cells.
abbrev pub used {ℓ} : {A : Type ℓ} → ℕ → Ring A → ℕ
used capacity r = (r.head + (capacity + 1) - r.tail) % (capacity + 1)

abbrev pub contents {ℓ} : {A : Type ℓ} → ℕ → A → Ring A → List A
contents capacity blank r = window blank r.buffer (capacity + 1) r.tail (used capacity r)

module _ {ℓ} {A : Type ℓ} (capacity : ℕ) (blank : A) where
  -- Both indices are in range, and the buffer has `Capacity + 1` cells.
  pub record IsValid (r : Ring A) : Type 0 where
    pub small : capacity + 1 < 2 ^ 64
    pub head_in : r.head < capacity + 1
    pub tail_in : r.tail < capacity + 1
    pub storage : length r.buffer ≡ capacity + 1

  round : (h t s : ℕ) → h < s → t < s → (t + (h + s - t) % s) % s ≡ h
  round h t s hh ht = elim (dec_lt h t) [
    | yes p ↦ grind (arith, mod-eq_of_lt, mod-eq-sub-mod)
    | no p ↦ grind (arith, mod-eq_of_lt, mod-eq-sub-mod)
  ]

  back : (t n s : ℕ) → t < s → n < s → ((t + n) % s + s - t) % s ≡ n
  back t n s ht hn = elim (dec_lt (t + n) s) [
    | yes p ↦ grind (arith, mod-eq_of_lt, mod-eq-sub-mod)
    | no p ↦ grind (arith, mod-eq_of_lt, mod-eq-sub-mod)
  ]

  pub IsValid-Cells : (r : Ring A) → IsValid r → Cells capacity blank r (used capacity r)
  IsValid-Cells r v = record {
    room =
        omega (arith, mod-lt (r.head + (capacity + 1) - r.tail) {m = capacity + 1} (omega arith));
    tail_in = v.tail_in;
    storage = v.storage;
    head_at = sym (round r.head r.tail (capacity + 1) v.head_in v.tail_in);
  }

  pub used_of_Cells : (r : Ring A) (n : ℕ) → Cells capacity blank r n → used capacity r ≡ n
  used_of_Cells r n c = rw c.head_at (back r.tail n (capacity + 1) c.tail_in (omega arith))

  pub length-contents : (r : Ring A) → length (contents capacity blank r) ≡ used capacity r
  length-contents r = length-window blank r.buffer (capacity + 1) r.tail (used capacity r)

  pub used-eq-zero : (r : Ring A) → IsValid r → r.tail ≡ r.head → used capacity r ≡ 0
  used-eq-zero r v e = grind (arith, mod-eq_of_lt, mod-eq-sub-mod)

  pub used_at_init : (r : Ring A) → r.tail ≡ 0 → r.head ≡ 0 → used capacity r ≡ 0
  used_at_init r t h = grind (arith, mod-eq_of_lt, mod-eq-sub-mod)
