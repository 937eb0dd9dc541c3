-- ===== src/SharedPtr/Threads/Balance.antt =====
-- What the counts of the control block count while threads use it at once.
use cc_snippets.Prelude.{ℕ, ◌+◌, ◌-◌, ◌≤◌, ◌<◌, ◌≡◌, arith, ◌==◌, if◌then◌else◌}
use cc_snippets.SharedPtr.Threads.{
  Place, idle, disposing, releasing, destroying, looping, Thread, World, touch, inc_use_count,
  inc_weak_count, dec_use_count, dec_weak_count, load, dispose, destroy,
}

-- 1 for a thread that stands there, and 0 for another
unfoldable pub at_disposing : Place → ℕ
at_disposing disposing = 1
at_disposing _ = 0

unfoldable pub at_releasing : Place → ℕ
at_releasing releasing = 1
at_releasing _ = 0

unfoldable pub at_destroying : Place → ℕ
at_destroying destroying = 1
at_destroying _ = 0

-- 1 for a thread in the loop of lock_use_count that has no weak pointer
unfoldable pub uncovered : ℕ → Place → ℕ
uncovered weak (looping count) = 1 - weak
uncovered weak _ = 0

unfoldable pub positive : ℕ → ℕ
positive n = if n == 0 then 0 else 1

-- With so many shared and weak pointers, and so many threads at the three places: the deleter is yet
-- to be called, about to be, or has been, and likewise destroy.
pub record IsBalanced (w : World) (shared weak d r x u : ℕ) : Type 0 where
  pub uses : w.use_count ≡ w.box_shared + shared
  pub disposal : positive w.use_count + d + w.deletions ≡ 1
  pub share : w.weak_count ≡ w.box_weak + weak + positive w.use_count + d + r
  pub destruction : positive w.weak_count + x + w.destructions ≡ 1
  pub covered : u ≡ 0
  pub clean : w.faults ≡ 0

-- No access of a block that has a count left, or whose destroy is yet to come, is a fault.
touch-zero :
    (w : World) (n : ℕ) → 0 < n → positive n + w.destructions ≤ 1 → w.faults ≡ 0 → touch w ≡ 0
unfolding touch positive
touch-zero w n h e c = ground (arith, h, e, c)

-- The threads other than one have so many pointers, and stand there so many times.
module _ (s k d r x u : ℕ) where
  abbrev pub WithThread : World × Thread → Type 0
  WithThread (w, t) =
      IsBalanced w (s + t.shared) (k + t.weak) (d + at_disposing t.place) (r + at_releasing t.place)
        (x + at_destroying t.place) (u + uncovered t.weak t.place)

  pub weak-touch : (w : World) (t : Thread) → 0 < w.weak_count → WithThread (w, t) → touch w ≡ 0
  unfolding positive
  weak-touch w t h v = touch-zero w w.weak_count h (omega (arith, v.destruction)) v.clean

  pub use-weak : (w : World) (t : Thread) → 0 < w.use_count → WithThread (w, t) → 0 < w.weak_count
  unfolding positive
  use-weak w t h v = ground (arith, h, v.share)

  pub inc_use_count-IsBalanced :
      (w : World) (t : Thread) (p : Place)
      → t.place ≡ p
      → at_disposing p + at_releasing p + at_destroying p ≡ 0
      → 0 < w.use_count
      → WithThread (w, t)
      → WithThread (inc_use_count w t)
  unfolding inc_use_count positive at_disposing at_releasing at_destroying uncovered
  inc_use_count-IsBalanced w t p q a h v = record {
    uses = omega (arith, v.uses);
    disposal = ground (arith, h, q, a, v.disposal);
    share = ground (arith, h, q, a, v.share);
    destruction = ground (arith, h, q, a, v.destruction);
    covered = ground (arith, v.covered);
    clean = weak-touch w t (use-weak w t h v) v;
  }

  pub inc_weak_count-IsBalanced :
      (w : World) (t : Thread)
      → t.place ≡ idle
      → 0 < w.weak_count
      → WithThread (w, t)
      → WithThread (inc_weak_count w t)
  unfolding inc_weak_count positive at_disposing at_releasing at_destroying uncovered
  inc_weak_count-IsBalanced w t q h v = record {
    uses = omega (arith, v.uses);
    disposal = ground (arith, v.disposal);
    share = ground (arith, v.share);
    destruction = ground (arith, h, v.destruction);
    covered = ground (arith, q, v.covered);
    clean = weak-touch w t h v;
  }

  pub dec_use_count-IsBalanced :
      (w : World) (t : Thread)
      → t.place ≡ idle
      → 0 < t.shared
      → WithThread (w, t)
      → WithThread (dec_use_count w t)
  unfolding dec_use_count positive at_disposing at_releasing at_destroying uncovered
  dec_use_count-IsBalanced w t q h v = record {
    uses = omega (arith, h, v.uses);
    disposal = ground (arith, q, h, v.uses, v.disposal);
    share = ground (arith, q, h, v.uses, v.share);
    destruction = ground (arith, q, v.destruction);
    covered = ground (arith, q, v.covered);
    clean = weak-touch w t (use-weak w t (omega (arith, h, v.uses)) v) v;
  }

  pub dec_weak_count-IsBalanced :
      (w : World) (t : Thread)
      → t.place ≡ idle
      → 0 < t.weak
      → WithThread (w, t)
      → WithThread (dec_weak_count w (record t { weak = t.weak - 1 }))
  unfolding dec_weak_count positive at_disposing at_releasing at_destroying uncovered
  dec_weak_count-IsBalanced w t q h v = record {
    uses = omega (arith, v.uses);
    disposal = ground (arith, q, v.disposal);
    share = ground (arith, q, h, v.share);
    destruction = ground (arith, q, h, v.share, v.destruction);
    covered = ground (arith, q, v.covered);
    clean = weak-touch w t (omega (arith, h, v.share)) v;
  }

  pub releasing-IsBalanced :
      (w : World) (t : Thread)
      → t.place ≡ releasing
      → WithThread (w, t)
      → WithThread (dec_weak_count w t)
  unfolding dec_weak_count positive at_disposing at_releasing at_destroying uncovered
  releasing-IsBalanced w t q v = record {
    uses = omega (arith, v.uses);
    disposal = ground (arith, q, v.disposal);
    share = ground (arith, q, v.share);
    destruction = ground (arith, q, v.share, v.destruction);
    covered = ground (arith, q, v.covered);
    clean = weak-touch w t (ground (arith, q, v.share)) v;
  }

  pub load-IsBalanced :
      (w : World) (t : Thread) (p : Place)
      → t.place ≡ p
      → at_disposing p + at_releasing p + at_destroying p ≡ 0
      → 0 < t.weak
      → WithThread (w, t)
      → WithThread (load w t)
  unfolding load positive at_disposing at_releasing at_destroying uncovered
  load-IsBalanced w t p q a h v = record {
    uses = omega (arith, v.uses);
    disposal = ground (arith, q, a, v.disposal);
    share = ground (arith, q, a, v.share);
    destruction = ground (arith, q, a, v.destruction);
    covered = ground (arith, h, v.covered);
    clean = weak-touch w t (omega (arith, h, v.share)) v;
  }

  pub dispose-IsBalanced :
      (w : World) (t : Thread) → t.place ≡ disposing → WithThread (w, t) → WithThread (dispose w t)
  unfolding dispose positive at_disposing at_releasing at_destroying uncovered
  dispose-IsBalanced w t q v = record {
    uses = omega (arith, v.uses);
    disposal = ground (arith, q, v.disposal);
    share = ground (arith, q, v.share);
    destruction = ground (arith, q, v.destruction);
    covered = ground (arith, q, v.covered);
    clean = weak-touch w t (ground (arith, q, v.share)) v;
  }

  pub destroy-IsBalanced :
      (w : World) (t : Thread) → t.place ≡ destroying → WithThread (w, t) → WithThread (destroy w t)
  unfolding destroy positive at_disposing at_releasing at_destroying uncovered touch
  destroy-IsBalanced w t q v = record {
    uses = omega (arith, v.uses);
    disposal = ground (arith, q, v.disposal);
    share = ground (arith, q, v.share);
    destruction = ground (arith, q, v.destruction);
    covered = ground (arith, q, v.covered);
    clean = ground (arith, q, v.destruction, v.clean);
  }
