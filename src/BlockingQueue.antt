-- ===== src/BlockingQueue.antt =====
-- null/concurrent_blocking_queue.h: a bounded queue with a mutex and two condition variables.
-- What a thread does while it holds the mutex is one step. A thread that waits sits in a list:
-- `waiting` on its condition variable, or `woken`, when it has been notified and has yet to get
-- the mutex back. The scheduler, spurious wake-ups and timeouts are the events of a run.
pub mod Threads
pub mod Invariant
pub mod Order
pub mod Claims
mod Tests
use cc_snippets.Prelude.{
  ℕ, zero, suc, ◌+◌, ◌-◌, ◌^◌, Bool, true, false, not, ◌||◌, ◌&&◌, List, [], ◌∷◌, ◌++◌, Option,
  none, some, ltb, if◌then◌else◌, length,
}

-- A thread in push (or in try_push, which is `timed`), with its element.
pub record Pusher {ℓ} (A : Type ℓ) : Type ℓ where
  pub elem : A
  pub timed : Bool

-- A thread in pop or, if `timed`, in try_pop.
pub record Popper : Type 0 where
  pub timed : Bool

-- `notifying_empty` counts the calls of close that have set closed_ and not yet notified
-- not_empty_cv_; `notifying_full` those that have yet to notify not_full_cv_. `pushed` and
-- `popped` record what went into and out of the queue.
pub record Queue {ℓ} (A : Type ℓ) : Type ℓ where
  pub capacity : ℕ
  pub queue : List A
  pub closed : Bool
  pub push_waiting : List (Pusher A)
  pub push_woken : List (Pusher A)
  pub pop_waiting : List Popper
  pub pop_woken : List Popper
  pub notifying_empty : ℕ
  pub notifying_full : ℕ
  pub pushed : List A
  pub popped : List A

-- the default capacity: the greatest size_t
abbrev pub max_size : ℕ
max_size = 2 ^ 64 - 1

module _ {ℓ} {A : Type ℓ} where
  -- Takes out the element at an index, and the last one if the index is too large.
  unfoldable pub pull : ℕ → List A → Option (A × List A)
  pull i [] = none
  pull zero (x ∷ l) = some (x, l)
  pull (suc i) (x ∷ l) = elim (pull i l) [ none ↦ some (x, l) | some (y, r) ↦ some (y, x ∷ r) ]

  abbrev pub is_empty : List A → Bool
  is_empty [] = true
  is_empty (x ∷ l) = false

module _ {ℓ} {A : Type ℓ} where
  -- the constructor
  unfoldable pub init : ℕ → Queue A
  init capacity = record {
    capacity = capacity;
    queue = [];
    closed = false;
    push_waiting = [];
    push_woken = [];
    pop_waiting = [];
    pop_woken = [];
    notifying_empty = 0;
    notifying_full = 0;
    pushed = [];
    popped = [];
  }

  -- the predicates of the two waits
  abbrev pub can_push : Queue A → Bool
  can_push q = ltb (length q.queue) q.capacity || q.closed

  abbrev pub can_pop : Queue A → Bool
  can_pop q = not (is_empty q.queue) || q.closed

  -- `not_empty_cv_.notify_one ()`: the scheduler picks the waiter
  unfoldable pub notify_not_empty : ℕ → Queue A → Queue A
  unfolding pull
  notify_not_empty pick q = elim (pull pick q.pop_waiting) [
    | none ↦ q
    | some (t, rest) ↦ record q { pop_waiting = rest; pop_woken = t ∷ q.pop_woken }
  ]

  -- `not_full_cv_.notify_one ()`
  unfoldable pub notify_not_full : ℕ → Queue A → Queue A
  unfolding pull
  notify_not_full pick q = elim (pull pick q.push_waiting) [
    | none ↦ q
    | some (t, rest) ↦ record q { push_waiting = rest; push_woken = t ∷ q.push_woken }
  ]

  -- push behind its wait
  unfoldable pub finish_push : ℕ → Queue A → A → Queue A × Bool
  unfolding notify_not_empty
  finish_push pick q elem = if q.closed then (q, false) else (
    notify_not_empty pick
        (record q { queue = q.queue ++ elem ∷ []; pushed = q.pushed ++ elem ∷ [] }),
    true,
  )

  take_front : ℕ → Queue A → List A → Queue A × Option A
  unfolding notify_not_full
  take_front pick q [] = (q, none)
  take_front pick q (x ∷ rest) =
      (notify_not_full pick (record q { queue = rest; popped = q.popped ++ x ∷ [] }), some x)

  -- pop behind its wait
  unfoldable pub finish_pop : ℕ → Queue A → Queue A × Option A
  unfolding take_front
  finish_pop pick q = if is_empty q.queue && q.closed then (q, none) else take_front pick q q.queue

  -- A thread of push or try_push that holds the mutex and tests the predicate; the result is
  -- `none` when it goes to wait.
  unfoldable pub try_finish_push : ℕ → Queue A → Pusher A → Queue A × Option Bool
  unfolding finish_push
  try_finish_push pick q t =
      if can_push q
      then (let (q', done) = finish_push pick q t.elem in (q', some done))
      else (record q { push_waiting = t ∷ q.push_waiting }, none)

  unfoldable pub try_finish_pop : ℕ → Queue A → Popper → Queue A × Option (Option A)
  unfolding finish_pop
  try_finish_pop pick q t =
      if can_pop q
      then (let (q', out) = finish_pop pick q in (q', some out))
      else (record q { pop_waiting = t ∷ q.pop_waiting }, none)

  -- the four calls, up to their return or their first wait
  unfoldable pub push : ℕ → Queue A → A → Queue A × Option Bool
  unfolding try_finish_push
  push pick q elem = try_finish_push pick q (record { elem = elem; timed = false })

  unfoldable pub try_push : ℕ → Queue A → A → Queue A × Option Bool
  unfolding try_finish_push
  try_push pick q elem = try_finish_push pick q (record { elem = elem; timed = true })

  unfoldable pub pop : ℕ → Queue A → Queue A × Option (Option A)
  unfolding try_finish_pop
  pop pick q = try_finish_pop pick q (record { timed = false })

  unfoldable pub try_pop : ℕ → Queue A → Queue A × Option (Option A)
  unfolding try_finish_pop
  try_pop pick q = try_finish_pop pick q (record { timed = true })

  -- wait_for has timed out: the thread holds the mutex, and `success` is the predicate
  unfoldable pub expire_push : ℕ → Queue A → Pusher A → Queue A × Bool
  unfolding finish_push
  expire_push pick q t = if can_push q then finish_push pick q t.elem else (q, false)

  unfoldable pub expire_pop : ℕ → Queue A → Queue A × Option A
  unfolding finish_pop
  expire_pop pick q = if can_pop q then finish_pop pick q else (q, none)

  -- close, up to the end of its block; the two notify_all come later, in this order
  unfoldable pub close : Queue A → Queue A
  close q = record q { closed = true; notifying_empty = q.notifying_empty + 1 }

  unfoldable pub notify_all_not_empty : Queue A → Queue A
  notify_all_not_empty q =
      if ltb 0 q.notifying_empty
      then record q {
        pop_waiting = [];
        pop_woken = q.pop_waiting ++ q.pop_woken;
        notifying_empty = q.notifying_empty - 1;
        notifying_full = q.notifying_full + 1;
      }
      else q

  unfoldable pub notify_all_not_full : Queue A → Queue A
  notify_all_not_full q =
      if ltb 0 q.notifying_full
      then record q {
        push_waiting = [];
        push_woken = q.push_waiting ++ q.push_woken;
        notifying_full = q.notifying_full - 1;
      }
      else q

  unfoldable pub size : Queue A → ℕ
  size q = length q.queue

  unfoldable pub empty : Queue A → Bool
  empty q = is_empty q.queue

  unfoldable pub is_closed : Queue A → Bool
  is_closed q = q.closed
