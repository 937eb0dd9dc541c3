-- ===== src/ConcurrentLru/Tests.antt =====
-- The theorems about null/concurrent_lru_cache.h on a run of three threads.
use cc_snippets.Prelude.{ℕ, ◌≡◌, refl, List, [], ◌∷◌, none, some, ℕ_discrete}
use cc_snippets.Lru.{Cache, init}
use cc_snippets.Lru.Refine.{get_of, put_of}
use cc_snippets.ConcurrentLru
use cc_snippets.ConcurrentLru.{World, Event, calls, locks, works, around, start, run}
use cc_snippets.ConcurrentLru.Alone.{last_cache, run_calls}
use cc_snippets.ConcurrentLru.Order.{IsFreeOrHeld, run_linear}

abbrev small : World ℕ ℕ
small = around 3 (record { capacity = 1; list = []; map = []; fresh = 0 })

-- Two threads call, the second is first to take the mutex, and the first tries to between its
-- accesses and takes it after its return.
abbrev events : List (Event ℕ ℕ)
events =
    calls 0 (get_of 7)
    ∷ calls 1 (put_of 7 70)
    ∷ locks 1
    ∷ works 1
    ∷ works 1
    ∷ locks 0
    ∷ works 0
    ∷ works 1
    ∷ works 1
    ∷ works 1
    ∷ locks 0
    ∷ works 0
    ∷ works 0
    ∷ works 0
    ∷ []

abbrev after : World ℕ ℕ
after = run ℕ_discrete small events

run_linear_example :
    (c : Cache ℕ ℕ) × (init 1 ≡ some c)
    × (after.results ≡ run_calls ℕ_discrete c after.finished)
    × IsFreeOrHeld ℕ_discrete after (last_cache ℕ_discrete c after.finished)
unfolding start init
run_linear_example = run_linear ℕ_discrete 1 3 events small refl

-- the put has made the node at address 0, and the get returns it
returned : after.results ≡ none ∷ some 0 ∷ []
unfolding run ConcurrentLru.step ℕ_discrete
returned = refl
