-- ===== src/BlockingQueue/Invariant.antt =====
-- The invariant of the waits and the notifications of null/concurrent_blocking_queue.h.
use cc_snippets.Prelude.{
  ℕ, zero, suc, ◌+◌, ◌<◌, ◌≤◌, ◌≡◌, refl, true, false, List, [], ◌∷◌, Option, none, some, length,
  length-append, arith, ◌⊎◌,
}
use cc_snippets.BlockingQueue.{
  Queue, Pusher, Popper, pull, init, notify_not_empty, notify_not_full, push, try_push, pop,
  try_pop, try_finish_push, try_finish_pop, close, notify_all_not_empty, notify_all_not_full,
}
use cc_snippets.BlockingQueue.Threads.{
  Event, resume_push, resume_pop, expire_waiting_push, expire_waiting_pop, expire_woken_push,
  expire_woken_pop, step, run,
}

module _ {ℓ} {A : Type ℓ} where
  abbrev pulled_length : Option (A × List A) → ℕ
  pulled_length none = 0
  pulled_length (some (x, r)) = suc (length r)

  length-pull : (i : ℕ) (l : List A) → length l ≡ pulled_length (pull i l)
  unfolding pull
  length-pull i [] = refl
  length-pull zero (x ∷ l) = refl
  length-pull (suc i) (x ∷ l) = ground (arith, length-pull i l)

-- A thread asleep in pop means that there is no element for it, or one thread awake for each
-- element; a thread asleep in push likewise, until close. After close no thread sleeps that a
-- call of close is not about to notify.
pub record Awake {ℓ} {A : Type ℓ} (q : Queue A) : Type 0 where
  pub room : length q.queue ≤ q.capacity
  pub pop_awake : (length q.pop_waiting ≡ 0) ⊎ (length q.queue ≤ length q.pop_woken)
  pub push_awake :
      (q.closed ≡ true)
      ⊎ (length q.push_waiting ≡ 0)
      ⊎ (q.capacity ≤ length q.queue + length q.push_woken)
  pub closed_pop : (q.closed ≡ false) ⊎ (length q.pop_waiting ≡ 0) ⊎ (0 < q.notifying_empty)
  pub closed_push :
      (q.closed ≡ false) ⊎ (length q.push_waiting ≡ 0) ⊎ (0 < q.notifying_empty + q.notifying_full)

module _ {ℓ} {A : Type ℓ} where
  init-Awake : (capacity : ℕ) → Awake (init {A = A} capacity)
  unfolding init
  init-Awake capacity = ground arith

  notify_not_empty-Awake : (pick : ℕ) (q : Queue A) → Awake q → Awake (notify_not_empty pick q)
  unfolding notify_not_empty
  notify_not_empty-Awake pick q w = ground (arith, length-pull pick q.pop_waiting)

  notify_not_full-Awake : (pick : ℕ) (q : Queue A) → Awake q → Awake (notify_not_full pick q)
  unfolding notify_not_full
  notify_not_full-Awake pick q w = ground (arith, length-pull pick q.push_waiting)

  try_finish_push-Awake :
      (pick : ℕ) (q : Queue A) (t : Pusher A) → Awake q → Awake (try_finish_push pick q t).0
  unfolding try_finish_push
  try_finish_push-Awake pick q t w =
      ground (arith, length-pull pick q.pop_waiting, length-append q.queue (t.elem ∷ []))

  try_finish_pop-Awake :
      (pick : ℕ) (q : Queue A) (t : Popper) → Awake q → Awake (try_finish_pop pick q t).0
  unfolding try_finish_pop
  try_finish_pop-Awake pick q t w = ground (arith, length-pull pick q.push_waiting)

  close-Awake : (q : Queue A) → Awake q → Awake (close q)
  unfolding close
  close-Awake q w = ground arith

  notify_all_not_empty-Awake : (q : Queue A) → Awake q → Awake (notify_all_not_empty q)
  unfolding notify_all_not_empty
  notify_all_not_empty-Awake q w = ground arith

  notify_all_not_full-Awake : (q : Queue A) → Awake q → Awake (notify_all_not_full q)
  unfolding notify_all_not_full
  notify_all_not_full-Awake q w = ground (arith, length-append q.push_waiting q.push_woken)

  -- A thread leaves `push_woken` and tests its predicate.
  resume_push-Awake :
      (pick : ℕ) (q : Queue A) (r : Option (Pusher A × List (Pusher A)))
      → length q.push_woken ≡ pulled_length r
      → Awake q
      → Awake (resume_push pick q r)
  unfolding resume_push
  resume_push-Awake pick q none e w = w
  resume_push-Awake pick q (some (t, rest)) e w =
      ground (arith, length-pull pick q.pop_waiting, length-append q.queue (t.elem ∷ []))

  resume_pop-Awake :
      (pick : ℕ) (q : Queue A) (r : Option (Popper × List Popper))
      → length q.pop_woken ≡ pulled_length r
      → Awake q
      → Awake (resume_pop pick q r)
  unfolding resume_pop
  resume_pop-Awake pick q none e w = w
  resume_pop-Awake pick q (some (t, rest)) e w = ground (arith, length-pull pick q.push_waiting)

  expire_waiting_push-Awake :
      (pick : ℕ) (q : Queue A) (r : Option (Pusher A × List (Pusher A)))
      → length q.push_waiting ≡ pulled_length r
      → Awake q
      → Awake (expire_waiting_push pick q r)
  unfolding expire_waiting_push
  expire_waiting_push-Awake pick q none e w = w
  expire_waiting_push-Awake pick q (some (t, rest)) e w =
      ground (arith, length-pull pick q.pop_waiting, length-append q.queue (t.elem ∷ []))

  expire_waiting_pop-Awake :
      (pick : ℕ) (q : Queue A) (r : Option (Popper × List Popper))
      → length q.pop_waiting ≡ pulled_length r
      → Awake q
      → Awake (expire_waiting_pop pick q r)
  unfolding expire_waiting_pop
  expire_waiting_pop-Awake pick q none e w = w
  expire_waiting_pop-Awake pick q (some (t, rest)) e w =
      ground (arith, length-pull pick q.push_waiting)

  expire_woken_push-Awake :
      (pick : ℕ) (q : Queue A) (r : Option (Pusher A × List (Pusher A)))
      → length q.push_woken ≡ pulled_length r
      → Awake q
      → Awake (expire_woken_push pick q r)
  unfolding expire_woken_push
  expire_woken_push-Awake pick q none e w = w
  expire_woken_push-Awake pick q (some (t, rest)) e w =
      ground (arith, length-pull pick q.pop_waiting, length-append q.queue (t.elem ∷ []))

  expire_woken_pop-Awake :
      (pick : ℕ) (q : Queue A) (r : Option (Popper × List Popper))
      → length q.pop_woken ≡ pulled_length r
      → Awake q
      → Awake (expire_woken_pop pick q r)
  unfolding expire_woken_pop
  expire_woken_pop-Awake pick q none e w = w
  expire_woken_pop-Awake pick q (some (t, rest)) e w =
      ground (arith, length-pull pick q.push_waiting)

  step-Awake : (q : Queue A) (e : Event A) → Awake q → Awake (step q e)
  unfolding step push try_push pop try_pop
  step-Awake q (Event.pushes pick x) w = try_finish_push-Awake pick q _ w
  step-Awake q (Event.try_pushes pick x) w = try_finish_push-Awake pick q _ w
  step-Awake q (Event.pops pick) w = try_finish_pop-Awake pick q _ w
  step-Awake q (Event.try_pops pick) w = try_finish_pop-Awake pick q _ w
  step-Awake q Event.closes w = close-Awake q w
  step-Awake q Event.notifies_empty w = notify_all_not_empty-Awake q w
  step-Awake q Event.notifies_full w = notify_all_not_full-Awake q w
  step-Awake q (Event.resumes_push i pick) w =
      resume_push-Awake pick q (pull i q.push_woken) (length-pull i q.push_woken) w
  step-Awake q (Event.resumes_pop i pick) w =
      resume_pop-Awake pick q (pull i q.pop_woken) (length-pull i q.pop_woken) w
  step-Awake q (Event.wakes_push i) w = notify_not_full-Awake i q w
  step-Awake q (Event.wakes_pop i) w = notify_not_empty-Awake i q w
  step-Awake q (Event.expires_push i pick) w =
      expire_waiting_push-Awake pick q (pull i q.push_waiting) (length-pull i q.push_waiting) w
  step-Awake q (Event.expires_pop i pick) w =
      expire_waiting_pop-Awake pick q (pull i q.pop_waiting) (length-pull i q.pop_waiting) w
  step-Awake q (Event.expires_woken_push i pick) w =
      expire_woken_push-Awake pick q (pull i q.push_woken) (length-pull i q.push_woken) w
  step-Awake q (Event.expires_woken_pop i pick) w =
      expire_woken_pop-Awake pick q (pull i q.pop_woken) (length-pull i q.pop_woken) w

  run-Awake : (q : Queue A) (es : List (Event A)) → Awake q → Awake (run q es)
  unfolding run
  run-Awake q [] w = w
  run-Awake q (e ∷ es) w = run-Awake (step q e) es (step-Awake q e w)

  pub run-init-Awake : (capacity : ℕ) (es : List (Event A)) → Awake (run (init {A = A} capacity) es)
  run-init-Awake capacity es = run-Awake (init capacity) es (init-Awake capacity)
