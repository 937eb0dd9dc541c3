-- ===== src/BlockingQueue/Order.antt =====
-- The order of the elements of null/concurrent_blocking_queue.h, and what close changes.
use cc_snippets.Prelude.{
  ℕ, ◌≡◌, refl, Bool, true, false, List, [], ◌∷◌, ◌++◌, Option, none, some, ltb, ◌&&◌,
  if◌then◌else◌, Bool-cases, Option-cases, inl, inr,
}
use cc_snippets.BlockingQueue.{
  Queue, Pusher, Popper, pull, is_empty, can_push, can_pop, notify_not_empty, notify_not_full,
  finish_push, finish_pop, take_front, push, try_push, pop, try_pop, try_finish_push,
  try_finish_pop, expire_push, expire_pop, close, notify_all_not_empty, notify_all_not_full,
}
use cc_snippets.BlockingQueue.Threads.{
  Event, resume_push, resume_pop, expire_waiting_push, expire_waiting_pop, expire_woken_push,
  expire_woken_pop, step,
}

-- What a caller can tell of the queue, and the record of what went in and out.
pub record Elements {ℓ} (A : Type ℓ) : Type ℓ where
  pub capacity : ℕ
  pub queue : List A
  pub closed : Bool
  pub pushed : List A
  pub popped : List A

module _ {ℓ} {A : Type ℓ} where
  abbrev pub elements : Queue A → Elements A
  elements q = record {
    capacity = q.capacity;
    queue = q.queue;
    closed = q.closed;
    pushed = q.pushed;
    popped = q.popped;
  }

  -- What a step does to the elements: nothing, a close, an element behind the others while the
  -- queue is open, or the first element out. Nothing opens the queue again.
  pub data Change (s s' : Elements A) : Type ℓ where
    same : s' ≡ s → Change s s'
    shut : s' ≡ record s { closed = true } → Change s s'
    added :
        (x : A)
        → s.closed ≡ false
        → s' ≡ record s { queue = s.queue ++ x ∷ []; pushed = s.pushed ++ x ∷ [] }
        → Change s s'
    taken :
        (x : A) (rest : List A)
        → s.queue ≡ x ∷ rest
        → s' ≡ record s { queue = rest; popped = s.popped ++ x ∷ [] }
        → Change s s'

  pub elements-notify_not_empty :
      (pick : ℕ) (q : Queue A) → elements (notify_not_empty pick q) ≡ elements q
  unfolding notify_not_empty
  elements-notify_not_empty pick q = elim (Option-cases (pull pick q.pop_waiting)) [
    | inl e ↦ rw (e, notify_not_empty)
    | inr (x, e) ↦ rw (e, notify_not_empty)
  ]

  pub elements-notify_not_full :
      (pick : ℕ) (q : Queue A) → elements (notify_not_full pick q) ≡ elements q
  unfolding notify_not_full
  elements-notify_not_full pick q = elim (Option-cases (pull pick q.push_waiting)) [
    | inl e ↦ rw (e, notify_not_full)
    | inr (x, e) ↦ rw (e, notify_not_full)
  ]

  finish_push-Change :
      (pick : ℕ) (q : Queue A) (x : A) → Change (elements q) (elements (finish_push pick q x).0)
  unfolding finish_push
  finish_push-Change pick q x = elim (Bool-cases q.closed) [
    | inl e ↦ rw (e, finish_push) (same refl)
    | inr e ↦ rw (e, finish_push) (added x refl (rw elements-notify_not_empty refl))
  ]

  take_front-Change :
      (pick : ℕ) (q : Queue A) (l : List A)
      → q.queue ≡ l
      → Change (elements q) (elements (take_front pick q l).0)
  unfolding take_front
  take_front-Change pick q [] e = same refl
  take_front-Change pick q (x ∷ rest) e = taken x rest e (rw elements-notify_not_full refl)

  finish_pop-Change :
      (pick : ℕ) (q : Queue A) → Change (elements q) (elements (finish_pop pick q).0)
  unfolding finish_pop
  finish_pop-Change pick q = elim (Bool-cases (is_empty q.queue && q.closed)) [
    | inl e ↦ rw (e, finish_pop) (same refl)
    | inr e ↦ rw (e, finish_pop) (take_front-Change pick q q.queue refl)
  ]

  try_finish_push-Change :
      (pick : ℕ) (q : Queue A) (t : Pusher A)
      → Change (elements q) (elements (try_finish_push pick q t).0)
  unfolding try_finish_push
  try_finish_push-Change pick q t = elim (Bool-cases (can_push q)) [
    | inl e ↦ rw (e, try_finish_push) (finish_push-Change pick q t.elem)
    | inr e ↦ rw (e, try_finish_push) (same refl)
  ]

  try_finish_pop-Change :
      (pick : ℕ) (q : Queue A) (t : Popper)
      → Change (elements q) (elements (try_finish_pop pick q t).0)
  unfolding try_finish_pop
  try_finish_pop-Change pick q t = elim (Bool-cases (can_pop q)) [
    | inl e ↦ rw (e, try_finish_pop) (finish_pop-Change pick q)
    | inr e ↦ rw (e, try_finish_pop) (same refl)
  ]

  expire_push-Change :
      (pick : ℕ) (q : Queue A) (t : Pusher A)
      → Change (elements q) (elements (expire_push pick q t).0)
  unfolding expire_push
  expire_push-Change pick q t = elim (Bool-cases (can_push q)) [
    | inl e ↦ rw (e, expire_push) (finish_push-Change pick q t.elem)
    | inr e ↦ rw (e, expire_push) (same refl)
  ]

  expire_pop-Change :
      (pick : ℕ) (q : Queue A) → Change (elements q) (elements (expire_pop pick q).0)
  unfolding expire_pop
  expire_pop-Change pick q = elim (Bool-cases (can_pop q)) [
    | inl e ↦ rw (e, expire_pop) (finish_pop-Change pick q)
    | inr e ↦ rw (e, expire_pop) (same refl)
  ]

  resume_push-Change :
      (pick : ℕ) (q : Queue A) (r : Option (Pusher A × List (Pusher A)))
      → Change (elements q) (elements (resume_push pick q r))
  unfolding resume_push
  resume_push-Change pick q none = same refl
  resume_push-Change pick q (some (t, rest)) =
      try_finish_push-Change pick (record q { push_woken = rest }) t

  resume_pop-Change :
      (pick : ℕ) (q : Queue A) (r : Option (Popper × List Popper))
      → Change (elements q) (elements (resume_pop pick q r))
  unfolding resume_pop
  resume_pop-Change pick q none = same refl
  resume_pop-Change pick q (some (t, rest)) =
      try_finish_pop-Change pick (record q { pop_woken = rest }) t

  -- A timeout counts for a timed thread alone.
  timed-Change :
      (s : Elements A) (timed : Bool) (a b : Queue A)
      → Change s (elements a)
      → Change s (elements b)
      → Change s (elements (if timed then a else b))
  timed-Change s true a b p q = p
  timed-Change s false a b p q = q

  expire_waiting_push-Change :
      (pick : ℕ) (q : Queue A) (r : Option (Pusher A × List (Pusher A)))
      → Change (elements q) (elements (expire_waiting_push pick q r))
  unfolding expire_waiting_push
  expire_waiting_push-Change pick q none = same refl
  expire_waiting_push-Change pick q (some (t, rest)) =
      timed-Change (elements q) t.timed _ q
        (expire_push-Change pick (record q { push_waiting = rest }) t) (same refl)

  expire_waiting_pop-Change :
      (pick : ℕ) (q : Queue A) (r : Option (Popper × List Popper))
      → Change (elements q) (elements (expire_waiting_pop pick q r))
  unfolding expire_waiting_pop
  expire_waiting_pop-Change pick q none = same refl
  expire_waiting_pop-Change pick q (some (t, rest)) =
      timed-Change (elements q) t.timed _ q
        (expire_pop-Change pick (record q { pop_waiting = rest })) (same refl)

  expire_woken_push-Change :
      (pick : ℕ) (q : Queue A) (r : Option (Pusher A × List (Pusher A)))
      → Change (elements q) (elements (expire_woken_push pick q r))
  unfolding expire_woken_push
  expire_woken_push-Change pick q none = same refl
  expire_woken_push-Change pick q (some (t, rest)) =
      timed-Change (elements q) t.timed _ q
        (expire_push-Change pick (record q { push_woken = rest }) t) (same refl)

  expire_woken_pop-Change :
      (pick : ℕ) (q : Queue A) (r : Option (Popper × List Popper))
      → Change (elements q) (elements (expire_woken_pop pick q r))
  unfolding expire_woken_pop
  expire_woken_pop-Change pick q none = same refl
  expire_woken_pop-Change pick q (some (t, rest)) =
      timed-Change (elements q) t.timed _ q (expire_pop-Change pick (record q { pop_woken = rest }))
        (same refl)

  notify_all_not_empty-Change :
      (q : Queue A) → Change (elements q) (elements (notify_all_not_empty q))
  unfolding notify_all_not_empty
  notify_all_not_empty-Change q =
      timed-Change (elements q) (ltb 0 q.notifying_empty) _ q (same refl) (same refl)

  notify_all_not_full-Change :
      (q : Queue A) → Change (elements q) (elements (notify_all_not_full q))
  unfolding notify_all_not_full
  notify_all_not_full-Change q =
      timed-Change (elements q) (ltb 0 q.notifying_full) _ q (same refl) (same refl)

  -- Every step makes one of the four changes.
  pub step-Change : (q : Queue A) (e : Event A) → Change (elements q) (elements (step q e))
  unfolding step push try_push pop try_pop close
  step-Change q (Event.pushes pick x) = try_finish_push-Change pick q _
  step-Change q (Event.try_pushes pick x) = try_finish_push-Change pick q _
  step-Change q (Event.pops pick) = try_finish_pop-Change pick q _
  step-Change q (Event.try_pops pick) = try_finish_pop-Change pick q _
  step-Change q Event.closes = shut refl
  step-Change q Event.notifies_empty = notify_all_not_empty-Change q
  step-Change q Event.notifies_full = notify_all_not_full-Change q
  step-Change q (Event.resumes_push i pick) = resume_push-Change pick q (pull i q.push_woken)
  step-Change q (Event.resumes_pop i pick) = resume_pop-Change pick q (pull i q.pop_woken)
  step-Change q (Event.wakes_push i) = same (elements-notify_not_full i q)
  step-Change q (Event.wakes_pop i) = same (elements-notify_not_empty i q)
  step-Change q (Event.expires_push i pick) =
      expire_waiting_push-Change pick q (pull i q.push_waiting)
  step-Change q (Event.expires_pop i pick) = expire_waiting_pop-Change pick q (pull i q.pop_waiting)
  step-Change q (Event.expires_woken_push i pick) =
      expire_woken_push-Change pick q (pull i q.push_woken)
  step-Change q (Event.expires_woken_pop i pick) =
      expire_woken_pop-Change pick q (pull i q.pop_woken)
