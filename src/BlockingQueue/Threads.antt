-- ===== src/BlockingQueue/Threads.antt =====
-- The runs of null/concurrent_blocking_queue.h: threads that call it, wake up, and time out, in
-- any order.
use cc_snippets.Prelude.{ℕ, List, [], ◌∷◌, Option, none, some, if◌then◌else◌}
use cc_snippets.BlockingQueue.{
  Queue, Pusher, Popper, pull, push, try_push, pop, try_pop, try_finish_push, try_finish_pop,
  expire_push, expire_pop, close, notify_all_not_empty, notify_all_not_full, notify_not_empty,
  notify_not_full,
}

-- An event names the thread by its place in a list of waiters, and by `pick` the thread that its
-- notify_one wakes.
pub data Event {ℓ} (A : Type ℓ) : Type ℓ where
  -- a new call
  pushes try_pushes : (pick : ℕ) → A → Event A
  pops try_pops : (pick : ℕ) → Event A
  closes : Event A
  -- a call of close goes on to its notify_all
  notifies_empty notifies_full : Event A
  -- a woken thread gets the mutex and tests its predicate again
  resumes_push resumes_pop : (place pick : ℕ) → Event A
  -- a thread wakes with no notification
  wakes_push wakes_pop : (place : ℕ) → Event A
  -- the timeout of a timed thread that no one notified, and of one that was notified
  expires_push expires_pop : (place pick : ℕ) → Event A
  expires_woken_push expires_woken_pop : (place pick : ℕ) → Event A

module _ {ℓ} {A : Type ℓ} where
  unfoldable pub resume_push : ℕ → Queue A → Option (Pusher A × List (Pusher A)) → Queue A
  unfolding try_finish_push
  resume_push pick q none = q
  resume_push pick q (some (t, rest)) = (try_finish_push pick (record q { push_woken = rest }) t).0

  unfoldable pub resume_pop : ℕ → Queue A → Option (Popper × List Popper) → Queue A
  unfolding try_finish_pop
  resume_pop pick q none = q
  resume_pop pick q (some (t, rest)) = (try_finish_pop pick (record q { pop_woken = rest }) t).0

  unfoldable pub expire_waiting_push : ℕ → Queue A → Option (Pusher A × List (Pusher A)) → Queue A
  unfolding expire_push
  expire_waiting_push pick q none = q
  expire_waiting_push pick q (some (t, rest)) =
      if t.timed then (expire_push pick (record q { push_waiting = rest }) t).0 else q

  unfoldable pub expire_waiting_pop : ℕ → Queue A → Option (Popper × List Popper) → Queue A
  unfolding expire_pop
  expire_waiting_pop pick q none = q
  expire_waiting_pop pick q (some (t, rest)) =
      if t.timed then (expire_pop pick (record q { pop_waiting = rest })).0 else q

  unfoldable pub expire_woken_push : ℕ → Queue A → Option (Pusher A × List (Pusher A)) → Queue A
  unfolding expire_push
  expire_woken_push pick q none = q
  expire_woken_push pick q (some (t, rest)) =
      if t.timed then (expire_push pick (record q { push_woken = rest }) t).0 else q

  unfoldable pub expire_woken_pop : ℕ → Queue A → Option (Popper × List Popper) → Queue A
  unfolding expire_pop
  expire_woken_pop pick q none = q
  expire_woken_pop pick q (some (t, rest)) =
      if t.timed then (expire_pop pick (record q { pop_woken = rest })).0 else q

  unfoldable pub step : Queue A → Event A → Queue A
  unfolding push try_push pop try_pop close notify_all_not_empty notify_all_not_full resume_push
      resume_pop expire_waiting_push expire_waiting_pop expire_woken_push expire_woken_pop pull
  step q (pushes pick x) = (push pick q x).0
  step q (try_pushes pick x) = (try_push pick q x).0
  step q (pops pick) = (pop pick q).0
  step q (try_pops pick) = (try_pop pick q).0
  step q closes = close q
  step q notifies_empty = notify_all_not_empty q
  step q notifies_full = notify_all_not_full q
  step q (resumes_push place pick) = resume_push pick q (pull place q.push_woken)
  step q (resumes_pop place pick) = resume_pop pick q (pull place q.pop_woken)
  step q (wakes_push place) = notify_not_full place q
  step q (wakes_pop place) = notify_not_empty place q
  step q (expires_push place pick) = expire_waiting_push pick q (pull place q.push_waiting)
  step q (expires_pop place pick) = expire_waiting_pop pick q (pull place q.pop_waiting)
  step q (expires_woken_push place pick) = expire_woken_push pick q (pull place q.push_woken)
  step q (expires_woken_pop place pick) = expire_woken_pop pick q (pull place q.pop_woken)

  unfoldable pub run : Queue A → List (Event A) → Queue A
  unfolding step
  run q [] = q
  run q (e ∷ es) = run (step q e) es
