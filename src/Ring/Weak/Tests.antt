-- ===== src/Ring/Weak/Tests.antt =====
-- The theorems about null/spsc_ring_buffer.h with its orders of memory, on a ring of capacity 1.
use cc_snippets.Prelude.{ℕ, ◌+◌, ◌≤◌, ◌<◌, ◌≡◌, ◌≢◌, refl, List, [], ◌∷◌, ◌++◌, arith, length}
use cc_snippets.Ring.{init}
use cc_snippets.Ring.Contents.{contents}
use cc_snippets.Ring.Machine.{Machine, producer_step, consumer_step, start}
use cc_snippets.Ring.Weak.{
  Access, produce, consume, produce_in, consume_in, access, run_weak, start_weak, bounded_by,
}
use cc_snippets.Ring.Weak.Refine.{run_weak_fifo, run_weak_race_free}

-- The producer stores 7 and finds the ring full; the consumer reads it, and the producer does not see
-- that yet; its next load does, and it stores 8.
abbrev accesses : List (Access ℕ)
accesses =
    produce 7 0
    ∷ produce 7 0
    ∷ produce 7 0
    ∷ produce 7 0
    ∷ consume 0
    ∷ consume 0
    ∷ consume 0
    ∷ consume 0
    ∷ produce 8 0
    ∷ produce 8 1
    ∷ produce 8 0
    ∷ produce 8 0
    ∷ produce 8 0
    ∷ produce 8 0
    ∷ []

abbrev stale : Machine ℕ
stale = (run_weak 1 0 (start_weak 1 0) accesses).machine

run_weak_fifo_example :
    (stale.pushed ≡ stale.popped ++ contents 1 0 stale.ring)
    × (length (contents 1 0 stale.ring) ≤ 1)
run_weak_fifo_example = run_weak_fifo 1 0 (omega arith) accesses

-- capacity 2: the producer is about to store 8 and the consumer to read 7
abbrev racing : List (Access ℕ)
racing =
    produce 7 0
    ∷ produce 7 0
    ∷ produce 7 0
    ∷ produce 7 0
    ∷ produce 8 0
    ∷ produce 8 0
    ∷ consume 0
    ∷ consume 0
    ∷ []

abbrev midway : Machine ℕ
midway = (run_weak 2 0 (start_weak 2 0) racing).machine

abbrev nought : ℕ
nought = 0

run_weak_race_free_example :
    (nought + 1 ≢ nought) × (1 < length midway.ring.buffer) × (0 < length midway.ring.buffer)
unfolding run_weak access produce_in consume_in start_weak start init producer_step consumer_step
    bounded_by
run_weak_race_free_example =
    run_weak_race_free 2 0 (omega arith) racing midway 8 1 2 0 refl refl refl
