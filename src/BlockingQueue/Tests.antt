-- ===== src/BlockingQueue/Tests.antt =====
-- The theorems about null/concurrent_blocking_queue.h on queues of one element.
use cc_snippets.Prelude.{
  ℕ, ◌≤◌, ◌≡◌, refl, true, false, List, [], ◌∷◌, ◌++◌, none, some, length, ◌⊎◌,
}
use cc_snippets.BlockingQueue.{
  Queue, init, push, pop, close, try_finish_push, try_finish_pop, finish_push, finish_pop,
  notify_not_empty, notify_not_full, pull,
}
use cc_snippets.BlockingQueue.Threads.{Event, step, run, resume_push}
use cc_snippets.BlockingQueue.Claims.{
  run_queue_order, run_no_lost_wakeup, run_closed, pop_results, pop_results-closed,
}

-- Two threads push, of which the second waits; a third pops, and the second goes on.
abbrev events : List (Event ℕ)
events =
    Event.pushes 0 7
    ∷ Event.pushes 0 8
    ∷ Event.pops 0
    ∷ Event.resumes_push 0 0
    ∷ Event.pushes 0 9
    ∷ []

abbrev after : Queue ℕ
after = run (init 1) events

run_queue_order_example : (after.pushed ≡ after.popped ++ after.queue) × (length after.queue ≤ 1)
run_queue_order_example = run_queue_order 1 events

run_no_lost_wakeup_example :
    ((after.pop_waiting ≡ []) ⊎ ((after.queue ≡ []) × (after.closed ≡ false)))
    × ((after.push_waiting ≡ []) ⊎ ((length after.queue ≡ 1) × (after.closed ≡ false)))
unfolding run step init push pop resume_push try_finish_push try_finish_pop finish_push finish_pop
    notify_not_empty notify_not_full pull
run_no_lost_wakeup_example = run_no_lost_wakeup 1 events refl refl refl refl

-- a closed queue with 7 and 8
abbrev shut : Queue ℕ
shut = close (record (init 2) { queue = 7 ∷ 8 ∷ []; pushed = 7 ∷ 8 ∷ [] })

run_closed_example :
    ((run shut events).closed ≡ true)
    × ((run shut events).pushed ≡ shut.pushed)
    × ((run shut events).popped ++ (run shut events).queue ≡ shut.popped ++ shut.queue)
unfolding close
run_closed_example = run_closed shut events refl

pop_results-closed_example :
    pop_results 4 shut ≡ some (some 7) ∷ some (some 8) ∷ some none ∷ some none ∷ []
unfolding close
pop_results-closed_example = pop_results-closed (7 ∷ 8 ∷ []) 2 shut refl refl
