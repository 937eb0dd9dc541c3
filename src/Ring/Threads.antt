-- ===== src/Ring/Threads.antt =====
-- What every interleaving of the producer and the consumer of null/spsc_ring_buffer.h keeps.
use mathlib.Core.Path.{subst}
use cc_snippets.Prelude.{
  ℕ, ◌+◌, ◌^◌, ◌≤◌, ◌<◌, ◌≡◌, ◌≢◌, sym, ◌∙◌, List, [], ◌∷◌, ◌++◌, arith, length, if◌then◌else◌,
}
use cc_snippets.Ring.{push, pop}
use cc_snippets.Ring.Machine.{
  Machine, Producer, Consumer, Event, produce, consume, producer_step, consumer_step, step, run,
  start,
}
use cc_snippets.Ring.Contents.{contents, used_of_Cells, length-contents}
use cc_snippets.Ring.Slots.{Cells, head-ne-tail, head_in}
use cc_snippets.Ring.Invariant.{Inv, ProducerAt, ConsumerAt, run-Inv, start-Inv}

module _ {ℓ} {A : Type ℓ} (capacity : ℕ) (blank : A) where
  module _ (small : capacity + 1 < 2 ^ 64) where
    reached-Inv :
        (es : List (Event A)) → Inv capacity blank (run capacity blank (start capacity blank) es)
    reached-Inv es = run-Inv capacity blank small _ es (start-Inv capacity blank small)

    -- In every interleaving of the two threads' accesses, from a new ring whose Capacity + 1 fits
    -- size_t, the elements pushed so far are those popped so far followed by the ring's contents,
    -- in order, and the contents are at most Capacity.
    pub run_fifo :
        (es : List (Event A))
        → let m = run capacity blank (start capacity blank) es in
          (m.pushed ≡ m.popped ++ contents capacity blank m.ring)
          × (length (contents capacity blank m.ring) ≤ capacity)
    run_fifo es =
        let v = reached-Inv es in
        let e = used_of_Cells capacity blank _ v.count v.cells in
        (rw e v.fifo, rw (length-contents capacity blank, e) (omega arith))

  separate :
      (m : Machine A) (p : Producer A) (q : Consumer A) (item : A) (i k j : ℕ)
      → capacity + 1 < 2 ^ 64
      → (n : ℕ) → Cells capacity blank m.ring n
      → ProducerAt capacity blank m.ring n p
      → ConsumerAt capacity blank m.ring n q
      → p ≡ Producer.writing item i k
      → q ≡ Consumer.reading j
      → (i ≢ j) × (i < length m.ring.buffer) × (j < length m.ring.buffer)
  separate m (Producer.writing x h l) (Consumer.reading t) item i k j small n c pp qq e f =
      let ne = head-ne-tail capacity blank small m.ring n c c.room qq.1 in
      let hh = head_in capacity blank small m.ring n c in
      (λ g. ne (sym pp.0 ∙ ground arith), ground arith, ground arith)
  separate m p q item i k j small n c pp qq e f = cc

  module _ (small : capacity + 1 < 2 ^ 64) where
    -- In every interleaving of the two threads' accesses, from a new ring whose Capacity + 1 fits
    -- size_t, when the producer is about to write a cell and the consumer about to read one, the
    -- two cells differ and both lie in the buffer.
    pub run_race_free :
        (es : List (Event A)) (m : Machine A) (item : A) (i k j : ℕ)
        → run capacity blank (start capacity blank) es ≡ m
        → m.producer ≡ Producer.writing item i k
        → m.consumer ≡ Consumer.reading j
        → (i ≢ j) × (i < length m.ring.buffer) × (j < length m.ring.buffer)
    run_race_free es m item i k j e p q =
        let v = subst (Inv capacity blank) e (reached-Inv small es) in
        separate m m.producer m.consumer item i k j small v.count v.cells v.producing v.consuming p
          q

  -- A producer that runs alone, from outside a call, does in its accesses what push does in one
  -- step: two accesses when the ring is full, and four otherwise, which record the element as pushed.
  -- Likewise a consumer and pop: two accesses when the ring is empty, and four otherwise, which
  -- record the element that pop gives.
  run_alone :
      (m : Machine A) (item x y z : A)
      → m.producer ≡ Producer.idle
      → m.consumer ≡ Consumer.idle
      → (let (r, done) = push capacity m.ring item in
          (if done
            then run capacity blank m (produce item ∷ produce x ∷ produce y ∷ produce z ∷ [])
            else run capacity blank m (produce item ∷ produce x ∷ []))
          ≡ record m { ring = r; pushed = if done then m.pushed ++ item ∷ [] else m.pushed })
        × (let (r, done, out) = pop capacity blank m.ring item in
            (if done
              then run capacity blank m (consume ∷ consume ∷ consume ∷ consume ∷ [])
              else run capacity blank m (consume ∷ consume ∷ []))
            ≡ record m { ring = r; popped = if done then m.popped ++ out ∷ [] else m.popped })
  unfolding run step producer_step consumer_step push pop
  run_alone m item x y z e f = (ground arith, ground arith)
