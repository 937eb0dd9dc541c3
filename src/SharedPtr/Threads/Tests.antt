-- ===== src/SharedPtr/Threads/Tests.antt =====
-- The theorems about threads that share a control block, on two threads.
use cc_snippets.Prelude.{ℕ, ◌≡◌, ◌≤◌, ◌⊎◌, refl, false, List, [], ◌∷◌, ◌++◌}
use cc_snippets.SharedPtr.Threads.{
  looping, Thread, World, Action, drops, watches, drops_weak, locks, sends_weak, takes_weak,
  proceeds, inc_weak_count, dec_use_count, dec_weak_count, load, lock_use_count, dispose, destroy,
  begin, proceed, go_on, act, Event, act_at, step, run, start,
}
use cc_snippets.SharedPtr.Threads.Lifetime.{run_interleaved, run_released}

abbrev by : ℕ → Action → Event
by i a = record { thread = i; action = a }

-- The first thread makes a weak pointer and hands it over; the second has read a count of 1 in lock
-- when the first drops its shared pointer, and its exchange fails.
abbrev racing : List Event
racing =
    by 0 watches
    ∷ by 0 sends_weak
    ∷ by 1 takes_weak
    ∷ by 1 locks
    ∷ by 0 drops
    ∷ by 1 (proceeds false)
    ∷ []

abbrev raced : World
raced = run (start 1) racing

abbrev locker : Thread
locker = record { shared = 0; weak = 1; place = looping 0 }

run_interleaved_example :
    (raced.faults ≡ 0)
    × (raced.deletions ≤ 1)
    × (raced.destructions ≤ raced.deletions)
    × ((locker.shared ≡ 0) ⊎ ((raced.deletions ≡ 0) × (raced.destructions ≡ 0)))
    × ((locker.weak ≡ 0) ⊎ (raced.destructions ≡ 0))
unfolding run step act_at act begin go_on proceed start inc_weak_count dec_use_count load
    lock_use_count
run_interleaved_example = run_interleaved 1 racing raced 1 locker refl refl

-- The lock fails, the first thread deletes the object, and the second drops the last weak pointer.
abbrev ending : List Event
ending =
    racing
    ++ by 1 (proceeds false)
      ∷ by 0 (proceeds false)
      ∷ by 0 (proceeds false)
      ∷ by 1 drops_weak
      ∷ by 1 (proceeds false)
      ∷ []

abbrev over : World
over = run (start 1) ending

run_released_example : (over.deletions ≡ 1) × (over.destructions ≡ 1)
unfolding run step act_at act begin go_on proceed start inc_weak_count dec_use_count dec_weak_count
    load lock_use_count dispose destroy
run_released_example = run_released 1 ending over refl refl refl refl
