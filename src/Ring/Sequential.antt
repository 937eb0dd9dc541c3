-- ===== src/Ring/Sequential.antt =====
-- The calls of null/spsc_ring_buffer.h one after the other, against a bounded queue.
use native.Mathlib.Nat.{mod-eq_of_lt, mod-eq-sub-mod}
use cc_snippets.Prelude.{
  ℕ, ◌+◌, ◌-◌, ◌^◌, ◌≤◌, ◌<◌, ◌≡◌, refl, ap, ◌∙◌, List, [], ◌∷◌, ◌++◌, arith, length, Bool,
  Bool-cases, inl, inr, true, false, if◌then◌else◌, ◌==◌, ltb, length-replicate, lt→ltb,
}
use cc_snippets.Ring.{
  Ring, next_index, slots, init, push, pop, size, size_of_loads, is_full, is_empty,
}
use cc_snippets.Ring.Window.{window}
use cc_snippets.Ring.Contents.{
  contents, used, length-contents, IsValid, IsValid-Cells, used-eq-zero, used_at_init,
}
use cc_snippets.Ring.Slots.{next-ne_of_lt, lt_of_next-ne, pos_of_tail-ne}
use cc_snippets.Ring.Steps.{
  next, grown, contents-grown, grown-IsValid, popped, contents-popped, popped-IsValid,
}

-- A queue of at most `capacity` elements.
module _ {ℓ} {A : Type ℓ} where
  pub enqueue : ℕ → List A → A → List A × Bool
  enqueue capacity q item = if ltb (length q) capacity then (q ++ item ∷ [], true) else (q, false)

  pub dequeue : List A → A → List A × Bool × A
  dequeue [] elem = ([], false, elem)
  dequeue (x ∷ q) elem = (q, true, x)

-- A call of the ring or of the queue.
pub data Call {ℓ} (A : Type ℓ) : Type ℓ where
  put : A → Call A
  get : (elem : A) → Call A

module _ {ℓ} {A : Type ℓ} (capacity : ℕ) (blank : A) where
  -- The Booleans and elements that a sequence of calls of the ring gives.
  unfoldable pub run_ring : Ring A → List (Call A) → List (Bool × A)
  run_ring r [] = []
  run_ring r (put x ∷ cs) = let (r', done) = push capacity r x in (done, x) ∷ run_ring r' cs
  run_ring r (get x ∷ cs) = let (r', done, y) = pop capacity blank r x in (done, y) ∷ run_ring r' cs

  unfoldable pub run_queue : List A → List (Call A) → List (Bool × A)
  unfolding enqueue dequeue
  run_queue q [] = []
  run_queue q (put x ∷ cs) = let (q', done) = enqueue capacity q x in (done, x) ∷ run_queue q' cs
  run_queue q (get x ∷ cs) = let (q', done, y) = dequeue q x in (done, y) ∷ run_queue q' cs

  -- The constructor gives a valid ring with no elements, if Capacity + 1 fits size_t.
  init-IsValid :
      capacity + 1 < 2 ^ 64
      → IsValid capacity blank (init capacity blank)
        × (contents capacity blank (init capacity blank) ≡ [])
  unfolding init window
  init-IsValid small = (
    record {
      small = small;
      head_in = omega arith;
      tail_in = omega arith;
      storage = length-replicate (slots capacity) blank ∙ omega arith;
    },
    rw (used_at_init capacity blank (init capacity blank) refl refl) refl,
  )

  -- On a valid ring push gives a valid ring, and does to the contents, and returns, what `enqueue`
  -- does on a queue of at most Capacity elements.
  push_refines :
      (r : Ring A) (item : A)
      → IsValid capacity blank r
      → let (r', done) = push capacity r item in
        IsValid capacity blank r'
        × ((contents capacity blank r', done) ≡ enqueue capacity (contents capacity blank r) item)
  unfolding push enqueue grown
  push_refines r item v = elim (Bool-cases (next_index capacity r.head == r.tail)) [
    | inl full ↦
        let nlt : ltb (used capacity r) capacity ≡ false = ground (
          arith,
          next capacity blank r v,
          next-ne_of_lt capacity blank v.small r (used capacity r)
              (IsValid-Cells capacity blank r v),
        ) in
        let e : ltb (length (contents capacity blank r)) capacity ≡ false =
          rw (length-contents capacity blank r) nlt in
        rw full (v, rw e refl)
    | inr free ↦
        let lt : used capacity r < capacity =
          lt_of_next-ne capacity blank v.small r (used capacity r)
            (IsValid-Cells capacity blank r v) (λ e. ground (arith, next capacity blank r v)) in
        rw free (
          grown-IsValid capacity blank r item v,
          rw
              (lt→ltb (length (contents capacity blank r)) capacity
                (rw (length-contents capacity blank r) lt))
              (ap (λ q. (q, true)) (contents-grown capacity blank r item v lt)),
        )
  ]

  -- On a valid ring pop gives a valid ring, and does to the contents, returns and leaves in its
  -- argument what `dequeue` does.
  pop_refines :
      (r : Ring A) (elem : A)
      → IsValid capacity blank r
      → let (r', done, out) = pop capacity blank r elem in
        IsValid capacity blank r'
        × ((contents capacity blank r', done, out) ≡ dequeue (contents capacity blank r) elem)
  unfolding pop dequeue popped window
  pop_refines r elem v = elim (Bool-cases (r.tail == r.head)) [
    | inl empty ↦ rw empty (v, rw (used-eq-zero capacity blank r v (ground arith)) refl)
    | inr more ↦
        let pos : 0 < used capacity r =
          pos_of_tail-ne capacity blank v.small r (used capacity r)
            (IsValid-Cells capacity blank r v) (λ e. ground arith) in
        rw more (
          popped-IsValid capacity blank r v,
          rw (contents-popped capacity blank r (used capacity r - 1) v (omega arith)) refl,
        )
  ]

  -- Every sequence of calls of push and pop on a valid ring gives the results that it gives on the
  -- queue of its contents.
  pub run_ring-eq-run_queue :
      (r : Ring A) (cs : List (Call A))
      → IsValid capacity blank r
      → run_ring r cs ≡ run_queue (contents capacity blank r) cs
  unfolding run_ring run_queue
  run_ring-eq-run_queue r [] v = refl
  run_ring-eq-run_queue r (put x ∷ cs) v =
      let p = push_refines r x v in rw (run_ring-eq-run_queue (push capacity r x).0 cs p.0, ← p.1)
  run_ring-eq-run_queue r (get x ∷ cs) v =
      let p = pop_refines r x v in
      rw (run_ring-eq-run_queue (pop capacity blank r x).0 cs p.0, ← p.1)

  -- On a valid ring, size is the number of its elements, is_full tells whether there are Capacity of
  -- them, and is_empty whether there is none.
  pub size_lem :
      (r : Ring A)
      → IsValid capacity blank r
      → (size capacity r ≡ length (contents capacity blank r))
        × (is_full capacity r ≡ (length (contents capacity blank r) == capacity))
        × (is_empty r ≡ (length (contents capacity blank r) == 0))
  unfolding size is_full is_empty
  size_lem r v =
      let c = IsValid-Cells capacity blank r v in
      rw (length-contents capacity blank r) (
        grind (arith, mod-eq_of_lt, mod-eq-sub-mod),
        ground (
          arith,
          next capacity blank r v,
          lt_of_next-ne capacity blank v.small r (used capacity r) c,
          next-ne_of_lt capacity blank v.small r (used capacity r) c,
        ),
        ground (
          arith,
          used-eq-zero capacity blank r v,
          pos_of_tail-ne capacity blank v.small r (used capacity r) c,
        ),
      )

-- Whatever two indices below Capacity + 1 size loads, its result is at most Capacity, if
-- Capacity + 1 fits size_t.
size_of_loads-le :
    (capacity h t : ℕ)
    → capacity + 1 < 2 ^ 64
    → h < capacity + 1
    → t < capacity + 1
    → size_of_loads capacity h t ≤ capacity
unfolding size_of_loads
size_of_loads-le capacity h t small hh ht = ground arith
