-- ===== src/Ring/Steps.antt =====
-- One element more or one less in the ring of null/spsc_ring_buffer.h.
use native.Mathlib.Nat.{mod-lt}
use cc_snippets.Prelude.{
  ℕ, suc, ◌+◌, ◌%◌, ◌<◌, ◌≡◌, ap, ◌∙◌, [], ◌∷◌, ◌++◌, arith, get_or, set, length-set,
}
use cc_snippets.Ring.{Ring, next_index}
use cc_snippets.Ring.Window.{window, window-push, window-pop, add-mod-suc}
use cc_snippets.Ring.Contents.{contents, used, used_of_Cells, IsValid, IsValid-Cells}
use cc_snippets.Ring.Slots.{Cells, next-slot, next-head}

module _ {ℓ} {A : Type ℓ} (capacity : ℕ) (blank : A) where
  pub next :
      (r : Ring A)
      → IsValid capacity blank r
      → next_index capacity r.head ≡ (r.head + 1) % (capacity + 1)
  next r v = next-slot capacity r.head v.small v.head_in

  unfoldable pub grown : (r : Ring A) (item : A) → Ring A
  grown r item = record r { head = next_index capacity r.head; buffer = set r.buffer r.head item }

  grown-Cells :
      (r : Ring A) (item : A)
      → IsValid capacity blank r
      → used capacity r < capacity
      → Cells capacity blank (grown r item) (suc (used capacity r))
  unfolding grown
  grown-Cells r item v lt =
      let c = IsValid-Cells capacity blank r v in
      record {
        room = lt;
        tail_in = v.tail_in;
        storage = length-set r.buffer r.head item ∙ v.storage;
        head_at = next r v ∙ next-head capacity blank v.small r (used capacity r) c;
      }

  pub contents-grown :
      (r : Ring A) (item : A)
      → IsValid capacity blank r
      → used capacity r < capacity
      → contents capacity blank (grown r item) ≡ contents capacity blank r ++ item ∷ []
  contents-grown r item v lt =
      let c = IsValid-Cells capacity blank r v in
      rw (used_of_Cells capacity blank (grown r item) _ (grown-Cells r item v lt)) (
        unfold grown in
        (ap (λ i. window blank (set r.buffer i item) (capacity + 1) r.tail (suc (used capacity r)))
            c.head_at
          ∙ window-push blank r.buffer (capacity + 1) r.tail (used capacity r) item v.tail_in
              (omega arith) (omega arith) (rw (← c.head_at) v.head_in)))

  pub grown-IsValid :
      (r : Ring A) (item : A) → IsValid capacity blank r → IsValid capacity blank (grown r item)
  unfolding grown
  grown-IsValid r item v = record {
    small = v.small;
    head_in = rw (next r v) (mod-lt (r.head + 1) (omega arith));
    tail_in = v.tail_in;
    storage = length-set r.buffer r.head item ∙ v.storage;
  }

  unfoldable pub popped : Ring A → Ring A
  popped r = record r { tail = next_index capacity r.tail }

  popped-Cells :
      (r : Ring A) (n : ℕ)
      → IsValid capacity blank r
      → used capacity r ≡ suc n
      → Cells capacity blank (popped r) n
  unfolding popped
  popped-Cells r n v e =
      let t = next-slot capacity r.tail v.small v.tail_in in
      let c = IsValid-Cells capacity blank r v in
      record {
        room = omega (arith, c.room);
        tail_in = rw t (mod-lt (r.tail + 1) (omega arith));
        storage = v.storage;
        head_at = rw t (c.head_at ∙ rw (e, add-mod-suc));
      }

  pub popped-IsValid : (r : Ring A) → IsValid capacity blank r → IsValid capacity blank (popped r)
  unfolding popped
  popped-IsValid r v = record {
    small = v.small;
    head_in = v.head_in;
    tail_in = rw (next-slot capacity r.tail v.small v.tail_in) (mod-lt (r.tail + 1) (omega arith));
    storage = v.storage;
  }

  pub contents-popped :
      (r : Ring A) (n : ℕ)
      → IsValid capacity blank r
      → used capacity r ≡ suc n
      → contents capacity blank r
        ≡ get_or r.buffer r.tail blank ∷ contents capacity blank (popped r)
  contents-popped r n v e =
      rw (used_of_Cells capacity blank (popped r) n (popped-Cells r n v e), e)
        (unfold popped in
          (rw (next-slot capacity r.tail v.small v.tail_in)
            (window-pop blank r.buffer (capacity + 1) r.tail n v.tail_in)))
