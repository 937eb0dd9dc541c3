-- ===== src/SharedPtr/Threads/Lifetime.antt =====
-- How long the control block and the object live while threads use them at once.
use mathlib.Core.Path.{subst}
use cc_snippets.Prelude.{
  ℕ, ◌+◌, ◌≤◌, ◌≡◌, refl, List, [], ◌∷◌, some, arith, get_elem?, set, replicate, sum_by,
  sum_by-split, sum_by-replicate, sum_by-ge, Option-cases, inl, inr, ◌⊎◌,
}
use cc_snippets.SharedPtr.Threads.{
  idle, Thread, World, Action, act, Event, act_at, step, run, start,
}
use cc_snippets.SharedPtr.Threads.Balance.{
  at_disposing, at_releasing, at_destroying, uncovered, positive, IsBalanced, WithThread,
}
use cc_snippets.SharedPtr.Threads.Steps.{act-IsBalanced}

-- The counts of the control block, of all the threads.
abbrev IsCounted : World → Type 0
IsCounted w =
    IsBalanced w (sum_by (λ (t : Thread). t.shared) w.threads)
      (sum_by (λ (t : Thread). t.weak) w.threads)
      (sum_by (λ (t : Thread). at_disposing t.place) w.threads)
      (sum_by (λ (t : Thread). at_releasing t.place) w.threads)
      (sum_by (λ (t : Thread). at_destroying t.place) w.threads)
      (sum_by (λ (t : Thread). uncovered t.weak t.place) w.threads)

split-IsCounted :
    (w : World) (i : ℕ) (t : Thread) (a : Action)
    → get_elem? w.threads i ≡ some t
    → IsCounted w
    → let (w', t') = act w t t.place a in IsCounted (record w' { threads = set w.threads i t' })
split-IsCounted w i t a g v =
    let y = act w t t.place a in
    let (s, s1, s2) = sum_by-split (λ (t : Thread). t.shared) w.threads i t y.1 g in
    let (k, k1, k2) = sum_by-split (λ (t : Thread). t.weak) w.threads i t y.1 g in
    let (d, d1, d2) = sum_by-split (λ (t : Thread). at_disposing t.place) w.threads i t y.1 g in
    let (r, r1, r2) = sum_by-split (λ (t : Thread). at_releasing t.place) w.threads i t y.1 g in
    let (x, x1, x2) = sum_by-split (λ (t : Thread). at_destroying t.place) w.threads i t y.1 g in
    let (u, u1, u2) = sum_by-split (λ (t : Thread). uncovered t.weak t.place) w.threads i t y.1 g in
    let v' : WithThread s k d r x u y = act-IsBalanced s k d r x u w t t.place a refl (record {
      uses = omega (arith, v.uses, s1);
      disposal = omega (arith, v.disposal, d1);
      share = omega (arith, v.share, k1, d1, r1);
      destruction = omega (arith, v.destruction, x1);
      covered = omega (arith, v.covered, u1);
      clean = v.clean;
    }) in
    record {
      uses = omega (arith, v'.uses, s2);
      disposal = omega (arith, v'.disposal, d2);
      share = omega (arith, v'.share, k2, d2, r2);
      destruction = omega (arith, v'.destruction, x2);
      covered = omega (arith, v'.covered, u2);
      clean = v'.clean;
    }

step-IsCounted : (w : World) (e : Event) → IsCounted w → IsCounted (step w e)
unfolding step act_at
step-IsCounted w e v = elim (Option-cases (get_elem? w.threads e.thread)) [
  | inl n ↦ rw n v
  | inr (t, g) ↦ rw g (split-IsCounted w e.thread t e.action g v)
]

run-IsCounted : (w : World) (es : List Event) → IsCounted w → IsCounted (run w es)
unfolding run
run-IsCounted w [] v = v
run-IsCounted w (e ∷ es) v = run-IsCounted (step w e) es (step-IsCounted w e v)

-- a thread with no pointer, outside a call
abbrev pub empty_handed : Thread
empty_handed = record { shared = 0; weak = 0; place = idle }

start-IsCounted : (n : ℕ) → IsCounted (start n)
unfolding start positive at_disposing at_releasing at_destroying uncovered sum_by
start-IsCounted n = record {
  uses = omega (arith, sum_by-replicate (λ (t : Thread). t.shared) n empty_handed refl);
  disposal =
      omega (arith, sum_by-replicate (λ (t : Thread). at_disposing t.place) n empty_handed refl);
  share = omega (
    arith,
    sum_by-replicate (λ (t : Thread). t.weak) n empty_handed refl,
    sum_by-replicate (λ (t : Thread). at_disposing t.place) n empty_handed refl,
    sum_by-replicate (λ (t : Thread). at_releasing t.place) n empty_handed refl,
  );
  destruction =
      omega (arith, sum_by-replicate (λ (t : Thread). at_destroying t.place) n empty_handed refl);
  covered =
      omega
        (arith, sum_by-replicate (λ (t : Thread). uncovered t.weak t.place) n empty_handed refl);
  clean = refl;
}

reached-IsCounted : (n : ℕ) (es : List Event) (w : World) → run (start n) es ≡ w → IsCounted w
reached-IsCounted n es w e = subst IsCounted e (run-IsCounted (start n) es (start-IsCounted n))

-- In every interleaving of any number of threads that share one control block, no thread accesses
-- the block after destroy; the deleter and destroy are called at most once, and destroy not before
-- the deleter; neither has been called while a thread has a shared pointer, and destroy has not
-- while a thread has a weak one.
pub run_interleaved :
    (n : ℕ) (es : List Event) (w : World) (i : ℕ) (t : Thread)
    → run (start n) es ≡ w
    → get_elem? w.threads i ≡ some t
    → (w.faults ≡ 0)
      × (w.deletions ≤ 1)
      × (w.destructions ≤ w.deletions)
      × ((t.shared ≡ 0) ⊎ ((w.deletions ≡ 0) × (w.destructions ≡ 0)))
      × ((t.weak ≡ 0) ⊎ (w.destructions ≡ 0))
unfolding positive
run_interleaved n es w i t e g =
    let v = reached-IsCounted n es w e in
    let h = sum_by-ge (λ (t : Thread). t.shared) w.threads i t g in
    let k = sum_by-ge (λ (t : Thread). t.weak) w.threads i t g in
    (
      v.clean,
      omega (arith, v.disposal),
      ground (arith, v.disposal, v.share, v.destruction),
      ground (arith, v.uses, v.disposal, v.share, v.destruction, h),
      ground (arith, v.share, v.destruction, k),
    )

-- In every interleaving, once no thread has a pointer or is inside a call, and none is on its way to
-- another, the deleter and destroy have each been called once, so that nothing leaks.
pub run_released :
    (n : ℕ) (es : List Event) (w : World)
    → run (start n) es ≡ w
    → w.threads ≡ replicate (n + 1) empty_handed
    → w.box_shared ≡ 0
    → w.box_weak ≡ 0
    → (w.deletions ≡ 1) × (w.destructions ≡ 1)
unfolding positive at_disposing at_releasing at_destroying
run_released n es w e g b c =
    let v = reached-IsCounted n es w e in
    let s : sum_by (λ (t : Thread). t.shared) w.threads ≡ 0 =
      rw g (sum_by-replicate _ (n + 1) empty_handed refl) in
    let k : sum_by (λ (t : Thread). t.weak) w.threads ≡ 0 =
      rw g (sum_by-replicate _ (n + 1) empty_handed refl) in
    let d : sum_by (λ (t : Thread). at_disposing t.place) w.threads ≡ 0 =
      rw g (sum_by-replicate _ (n + 1) empty_handed refl) in
    let r : sum_by (λ (t : Thread). at_releasing t.place) w.threads ≡ 0 =
      rw g (sum_by-replicate _ (n + 1) empty_handed refl) in
    let x : sum_by (λ (t : Thread). at_destroying t.place) w.threads ≡ 0 =
      rw g (sum_by-replicate _ (n + 1) empty_handed refl) in
    (
      ground (arith, v.uses, v.disposal, s, d, b),
      ground (arith, v.uses, v.share, v.destruction, s, k, d, r, x, b, c),
    )
