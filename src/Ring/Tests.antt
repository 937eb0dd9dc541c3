-- ===== src/Ring/Tests.antt =====
-- The theorems about null/spsc_ring_buffer.h on a ring of two elements.
use cc_snippets.Prelude.{ℕ, ◌≡◌, refl, List, [], ◌∷◌, arith, length, ◌==◌}
use cc_snippets.Ring.{Ring, size, is_full, is_empty}
use cc_snippets.Ring.Machine.{Machine, Event, produce, consume, run, start}
use cc_snippets.Ring.Contents.{contents, IsValid}
use cc_snippets.Ring.Sequential.{
  Call, put, get, run_ring, run_queue, run_ring-eq-run_queue, size_lem,
}

abbrev blank : ℕ
blank = 0

-- The producer stores 7, and has begun to store 8 when the consumer begins to read.
abbrev events : List (Event ℕ)
events =
    produce 7 ∷ produce 7 ∷ produce 7 ∷ produce 7 ∷ produce 8 ∷ produce 8 ∷ consume ∷ consume ∷ []

abbrev midway : Machine ℕ
midway = run 2 blank (start 2 blank) events

-- head 0, tail 2: the buffer has wrapped around, and holds 5
abbrev wrapped : Ring ℕ
wrapped = record { head = 0; tail = 2; buffer = 8 ∷ 9 ∷ 5 ∷ [] }

wrapped-IsValid : IsValid 2 blank wrapped
wrapped-IsValid = record {
  small = omega arith;
  head_in = omega arith;
  tail_in = omega arith;
  storage = refl;
}

abbrev calls : List (Call ℕ)
calls = put 6 ∷ put 7 ∷ get 0 ∷ get 0 ∷ get 0 ∷ []

run_ring-eq-run_queue_example :
    run_ring 2 0 wrapped calls ≡ run_queue 2 0 (contents 2 blank wrapped) calls
run_ring-eq-run_queue_example = run_ring-eq-run_queue 2 0 wrapped calls wrapped-IsValid

size_lem_example :
    (size 2 wrapped ≡ length (contents 2 blank wrapped))
    × (is_full 2 wrapped ≡ (length (contents 2 blank wrapped) == 2))
    × (is_empty wrapped ≡ (length (contents 2 blank wrapped) == 0))
size_lem_example = size_lem 2 0 wrapped wrapped-IsValid
