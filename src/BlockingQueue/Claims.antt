-- ===== src/BlockingQueue/Claims.antt =====
-- What null/concurrent_blocking_queue.h promises its callers.
use cc_snippets.Prelude.{
  ℕ, zero, suc, ◌+◌, ◌<◌, ◌≤◌, ◌≡◌, refl, sym, ap, ◌∙◌, Bool, true, false, List, [], ◌∷◌, ◌++◌, map,
  replicate, Option, none, some, length, arith, append_assoc, ◌⊎◌, inl, inr, Bool-cases, ltb,
  if◌then◌else◌, ◌↔◌,
}
use native.Mathlib.Nat.{zero-add, suc-add}
use cc_snippets.BlockingQueue.{Queue, Pusher, init, push, pop, try_push, expire_push}
use cc_snippets.BlockingQueue.Threads.{Event, step, run}
use cc_snippets.BlockingQueue.Invariant.{Awake, run-init-Awake}
use cc_snippets.BlockingQueue.Order.{
  Elements, elements, Change, same, shut, added, taken, step-Change,
}

module _ {ℓ} {A : Type ℓ} where
  IsFifo : Elements A → Type ℓ
  IsFifo s = s.pushed ≡ s.popped ++ s.queue

  Change-IsFifo : (s s' : Elements A) → Change s s' → IsFifo s → IsFifo s'
  unfolding IsFifo
  Change-IsFifo s s' (same e) f = rw e f
  Change-IsFifo s s' (shut e) f = rw e f
  Change-IsFifo s s' (added x o e) f = rw (e, f) (append_assoc s.popped s.queue (x ∷ []))
  Change-IsFifo s s' (taken x rest o e) f = rw (e, f, o) (sym (append_assoc s.popped (x ∷ []) rest))

  run-IsFifo :
      (q : Queue A) (es : List (Event A)) → IsFifo (elements q) → IsFifo (elements (run q es))
  unfolding run
  run-IsFifo q [] f = f
  run-IsFifo q (e ∷ es) f = run-IsFifo (step q e) es (Change-IsFifo _ _ (step-Change q e) f)

  capacity-Change : (s s' : Elements A) → Change s s' → s'.capacity ≡ s.capacity
  capacity-Change s s' (same e) = rw e
  capacity-Change s s' (shut e) = rw e
  capacity-Change s s' (added x o e) = rw e
  capacity-Change s s' (taken x rest o e) = rw e

  capacity-run : (q : Queue A) (es : List (Event A)) → (run q es).capacity ≡ q.capacity
  unfolding run
  capacity-run q [] = refl
  capacity-run q (e ∷ es) = capacity-run (step q e) es ∙ capacity-Change _ _ (step-Change q e)

  -- In every run of any number of threads from a new queue, what was pushed is what was popped
  -- followed by what is in the queue, in order, and the queue never holds more than its capacity.
  pub run_queue_order :
      (capacity : ℕ) (es : List (Event A))
      → let q = run (init capacity) es in
        (q.pushed ≡ q.popped ++ q.queue) × (length q.queue ≤ capacity)
  unfolding init IsFifo
  run_queue_order capacity es = (
    run-IsFifo (init capacity) es refl,
    omega (arith, (run-init-Awake capacity es).room, capacity-run (init capacity) es),
  )

  quiet :
      (q : Queue A) (capacity : ℕ)
      → Awake q
      → q.capacity ≡ capacity
      → length q.push_woken ≡ 0
      → length q.pop_woken ≡ 0
      → q.notifying_empty ≡ 0
      → q.notifying_full ≡ 0
      → ((q.pop_waiting ≡ []) ⊎ ((q.queue ≡ []) × (q.closed ≡ false)))
        × ((q.push_waiting ≡ []) ⊎ ((length q.queue ≡ capacity) × (q.closed ≡ false)))
  quiet q capacity w e a b c d = (ground arith, ground arith)

  -- No wake-up is lost. In every run from a new queue, once no thread is awake and no call of close
  -- has a notification to make, no thread is asleep in pop or try_pop unless the queue is empty and
  -- open, and none is asleep in push or try_push unless it is full and open.
  pub run_no_lost_wakeup :
      (capacity : ℕ) (es : List (Event A))
      → (run (init capacity) es).push_woken ≡ []
      → (run (init capacity) es).pop_woken ≡ []
      → (run (init capacity) es).notifying_empty ≡ 0
      → (run (init capacity) es).notifying_full ≡ 0
      → let q = run (init capacity) es in
        ((q.pop_waiting ≡ []) ⊎ ((q.queue ≡ []) × (q.closed ≡ false)))
        × ((q.push_waiting ≡ []) ⊎ ((length q.queue ≡ capacity) × (q.closed ≡ false)))
  run_no_lost_wakeup capacity es a b c d =
      quiet _ capacity (run-init-Awake capacity es) (unfold init in capacity-run (init capacity) es)
        (ap length a) (ap length b) c d

  -- Once the queue is closed it stays closed, nothing more goes in, and nothing is lost: what is
  -- popped later is what was in the queue, in order.
  pub run_closed :
      (q : Queue A) (es : List (Event A))
      → q.closed ≡ true
      → ((run q es).closed ≡ true)
        × ((run q es).pushed ≡ q.pushed)
        × ((run q es).popped ++ (run q es).queue ≡ q.popped ++ q.queue)
  unfolding run
  run_closed q [] c = (c, refl, refl)
  run_closed q (e ∷ es) c =
      let s = keeps (elements q) (elements (step q e)) (step-Change q e) c in
      let r = run_closed (step q e) es s.0 in (r.0, r.1 ∙ s.1, r.2 ∙ s.2)
    where
      keeps :
          (s s' : Elements A)
          → Change s s'
          → s.closed ≡ true
          → (s'.closed ≡ true)
            × (s'.pushed ≡ s.pushed)
            × (s'.popped ++ s'.queue ≡ s.popped ++ s.queue)
      keeps s s' (same e) c = rw e (c, refl, refl)
      keeps s s' (shut e) c = rw e (refl, refl, refl)
      keeps s s' (added x o e) c = cc
      keeps s s' (taken x rest o e) c = rw (e, o) (c, refl, append_assoc s.popped (x ∷ []) rest)

  -- The results of calls of pop one after the other, each up to its return or its first wait.
  unfoldable pub pop_results : ℕ → Queue A → List (Option (Option A))
  unfolding pop
  pop_results zero q = []
  pop_results (suc n) q = let (q', r) = pop 0 q in r ∷ pop_results n q'

  pop-closed :
      (pick : ℕ) (q : Queue A) (x : A) (rest : List A)
      → q.closed ≡ true
      → q.queue ≡ x ∷ rest
      → let (q', r) = pop pick q in (q'.closed ≡ true) × (q'.queue ≡ rest) × (r ≡ some (some x))
  unfolding pop
  pop-closed pick q x rest c e = ground arith

  pop-drained :
      (pick : ℕ) (q : Queue A) → q.closed ≡ true → q.queue ≡ [] → pop pick q ≡ (q, some none)
  unfolding pop
  pop-drained pick q c e = ground arith

  pop_results-drained :
      (n : ℕ) (q : Queue A)
      → q.closed ≡ true
      → q.queue ≡ []
      → pop_results n q ≡ replicate n (some none)
  unfolding pop_results
  pop_results-drained zero q c e = refl
  pop_results-drained (suc n) q c e =
      rw (pop-drained 0 q c e) (ap (◌∷◌ (some none)) (pop_results-drained n q c e))

  -- On a closed queue no pop waits: the calls return the elements in order, and then nothing,
  -- however many they are.
  pub pop_results-closed :
      (l : List A) (n : ℕ) (q : Queue A)
      → q.closed ≡ true
      → q.queue ≡ l
      → pop_results (length l + n) q ≡ map (λ x. some (some x)) l ++ replicate n (some none)
  unfolding pop_results
  pop_results-closed [] n q c e = rw zero-add (pop_results-drained n q c e)
  pop_results-closed (x ∷ l) n q c e =
      let p = pop-closed 0 q x l c e in
      rw (suc-add, p.2) (ap (◌∷◌ (some (some x))) (pop_results-closed l n (pop 0 q).0 p.0 p.1))

  -- Each branch of push and of try_push, up to the return or the wait: on a closed queue it returns
  -- false and changes nothing, on an open one with room it appends the element and returns true,
  -- and on an open one that is full it waits, with its element, and leaves the queue as it is.
  push_branches :
      (pick : ℕ) (q : Queue A) (x : A) (timed : Bool)
      → let (q', r) = if timed then try_push pick q x else push pick q x in
        ((q.closed ≡ true) × (q' ≡ q) × (r ≡ some false))
        ⊎ ((q.closed ≡ false)
            × (length q.queue < q.capacity)
            × (q'.queue ≡ q.queue ++ x ∷ [])
            × (r ≡ some true))
        ⊎ ((q.closed ≡ false)
            × (q.capacity ≤ length q.queue)
            × (q' ≡ record q { push_waiting = record { elem = x; timed = timed } ∷ q.push_waiting })
            × (r ≡ none))
  unfolding try_push push
  push_branches pick q x true = elim (Bool-cases q.closed) [
    | inl c ↦ inl (ground arith)
    | inr c ↦ elim (Bool-cases (ltb (length q.queue) q.capacity)) [
      | inl lt ↦ inr (inl (ground arith))
      | inr le ↦ inr (inr (ground arith))
    ]
  ]
  push_branches pick q x false = elim (Bool-cases q.closed) [
    | inl c ↦ inl (ground arith)
    | inr c ↦ elim (Bool-cases (ltb (length q.queue) q.capacity)) [
      | inl lt ↦ inr (inl (ground arith))
      | inr le ↦ inr (inr (ground arith))
    ]
  ]

  -- A try_push whose wait timed out returns true exactly when the queue is open and has room, and
  -- then appends its element; otherwise it returns false and leaves the elements as they are.
  expire_push_branches :
      (pick : ℕ) (q : Queue A) (t : Pusher A)
      → let (q', done) = expire_push pick q t in
        ((done ≡ true) ↔ ((q.closed ≡ false) × (length q.queue < q.capacity)))
        × (q'.queue ≡ (if done then q.queue ++ t.elem ∷ [] else q.queue))
  unfolding expire_push
  expire_push_branches pick q t = ground arith
