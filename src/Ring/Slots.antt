-- ===== src/Ring/Slots.antt =====
-- Which cells of the ring of null/spsc_ring_buffer.h hold its elements.
use native.Mathlib.Nat.{mod-eq_of_lt, mod-add-mod, add-mod_right, add-zero, mod-lt}
use cc_snippets.Prelude.{
  ℕ, zero, suc, ◌+◌, ◌%◌, ◌^◌, ◌≤◌, ◌<◌, ◌≡◌, ◌≢◌, sym, ap, ◌∙◌, arith, length, set, length-set,
  dec_lt,
}
use cc_snippets.Ring.{Ring, slots, next_index}
use cc_snippets.Ring.Window.{add-mod-ne}

module _ (capacity : ℕ) where
  -- `next_head` is the cell behind `head`, and is not the oldest cell, if `count` leaves room.
  pub next-slot :
      (i : ℕ)
      → capacity + 1 < 2 ^ 64
      → i < capacity + 1
      → next_index capacity i ≡ (i + 1) % (capacity + 1)
  next-slot i small h =
      let e : slots capacity ≡ capacity + 1 = omega arith in
      let f : (i + 1) % 2 ^ 64 ≡ i + 1 = omega arith in rw (e, f)

module _ {ℓ} {A : Type ℓ} (capacity : ℕ) (blank : A) where
  -- `count` elements are in the ring.
  pub record Cells (r : Ring A) (count : ℕ) : Type 0 where
    pub room : count ≤ capacity
    pub tail_in : r.tail < capacity + 1
    pub storage : length r.buffer ≡ capacity + 1
    pub head_at : r.head ≡ (r.tail + count) % (capacity + 1)

  module _ (small : capacity + 1 < 2 ^ 64) where
    pub head_in : (r : Ring A) (n : ℕ) → Cells r n → r.head < capacity + 1
    head_in r n c = rw c.head_at (mod-lt (r.tail + n) (omega arith))

    -- The cell behind `head` is the oldest one if the ring is full.
    pub next-head :
        (r : Ring A) (n : ℕ)
        → Cells r n
        → (r.head + 1) % (capacity + 1) ≡ (r.tail + suc n) % (capacity + 1)
    next-head r n c = rw (c.head_at, mod-add-mod) (ap (λ k. k % (capacity + 1)) (omega arith))

    pub lt_of_next-ne :
        (r : Ring A) (n : ℕ) → Cells r n → (r.head + 1) % (capacity + 1) ≢ r.tail → n < capacity
    lt_of_next-ne r n c h = elim (dec_lt n capacity) [
      | yes p ↦ p
      | no p ↦ absurd (h (next-head r n c ∙ around p))
    ]
      where
        around : ¬ (n < capacity) → (r.tail + suc n) % (capacity + 1) ≡ r.tail
        around p =
            let e : r.tail + suc n ≡ r.tail + (capacity + 1) = omega arith in
            rw (e, add-mod_right) (mod-eq_of_lt c.tail_in)

    pub next-ne_of_lt :
        (r : Ring A) (n : ℕ) → Cells r n → n < capacity → (r.head + 1) % (capacity + 1) ≢ r.tail
    next-ne_of_lt r n c lt e =
        add-mod-ne (capacity + 1) r.tail 0 (suc n) c.tail_in (omega arith) (omega arith)
          (rw (add-zero, mod-eq_of_lt c.tail_in) (sym e ∙ next-head r n c))

    pub pos_of_tail-ne : (r : Ring A) (n : ℕ) → Cells r n → r.tail ≢ r.head → 0 < n
    pos_of_tail-ne r zero c h = absurd (h (sym (rw (c.head_at, add-zero) (mod-eq_of_lt c.tail_in))))
    pos_of_tail-ne r (suc n) c h = omega arith

    -- The producer's cell is not the one that the consumer reads.
    pub head-ne-tail : (r : Ring A) (n : ℕ) → Cells r n → n ≤ capacity → 0 < n → r.head ≢ r.tail
    head-ne-tail r n c room some e =
        add-mod-ne (capacity + 1) r.tail 0 n c.tail_in some (omega arith)
          (rw (add-zero, mod-eq_of_lt c.tail_in) (sym e ∙ c.head_at))

    pub write-Cells :
        (r : Ring A) (n : ℕ) (x : A)
        → Cells r n
        → Cells (record r { buffer = set r.buffer r.head x }) n
    write-Cells r n x c =
        ground (arith, length-set r.buffer r.head x, c.room, c.tail_in, c.storage, c.head_at)
