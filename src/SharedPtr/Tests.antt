-- ===== src/SharedPtr/Tests.antt =====
-- The theorems about null/shared_ptr.h and null/weak_ptr.h on one short program.
use cc_snippets.Prelude.{
  ◌+◌, ◌≡◌, refl, true, List, [], ◌∷◌, Option, none, some, ◌==◌, if◌then◌else◌, not, inr,
}
use cc_snippets.SharedPtr.{
  Heap, Block, load, allocate, inc_use_count, inc_weak_count, dec_use_count, dec_weak_count,
  dispose, destroy,
}
use cc_snippets.SharedPtr.Counts.{times_disposed}
use cc_snippets.SharedPtr.Census.{handles}
use cc_snippets.SharedPtr.Handles.{
  Ptr, null, new_shared, copy_shared, copy_weak, drop_shared, use_count, expired, lock,
}
use cc_snippets.SharedPtr.Program.{
  World, Call, call, run, start, construct, copy_construct, watch, destruct, keep_new, remove_at,
}
use cc_snippets.SharedPtr.Claims.{run_no_fault, run_lifetimes, use_count-run, lock-run}

-- A shared pointer to the object 5, a copy of it, a weak pointer, and the end of both shared ones.
abbrev calls : List Call
calls =
    Call.constructs true (some 5)
    ∷ Call.copies 0
    ∷ Call.watches 0
    ∷ Call.destructs 0
    ∷ Call.destructs 0
    ∷ []

abbrev world_or_start : Option World → World
world_or_start none = start
world_or_start (some w) = w

abbrev left : World
left = world_or_start (run start calls)

abbrev dead : Block
dead = record { ptr = 5; use_count = 0; weak_count = 1; alive = true }

abbrev watcher : Ptr
watcher = record { ptr = some 5; cb = some 0 }

run_no_fault_example : (w : World) × (run start calls ≡ some w)
run_no_fault_example = run_no_fault calls

run_lifetimes_example :
    (times_disposed 0 left.heap.deletions ≡ (if handles left.shared 0 == 0 then 1 else 0))
    × (true ≡ not (handles left.shared 0 + handles left.weak 0 == 0))
unfolding run call start construct copy_construct watch destruct keep_new remove_at new_shared
    copy_shared copy_weak drop_shared load allocate inc_use_count inc_weak_count dec_use_count
    dec_weak_count dispose destroy
run_lifetimes_example = run_lifetimes calls left 0 dead refl refl

use_count-run_example :
    (use_count watcher left.heap ≡ some (handles left.shared 0))
    × (expired watcher left.heap ≡ some (handles left.shared 0 == 0))
unfolding run call start construct copy_construct watch destruct keep_new remove_at new_shared
    copy_shared copy_weak drop_shared load allocate inc_use_count inc_weak_count dec_use_count
    dec_weak_count dispose destroy
use_count-run_example = use_count-run calls left 0 watcher 0 refl (inr refl) refl

lock-run_example :
    (h : Heap) × (lock 3 watcher left.heap
      ≡ some (h, (if handles left.shared 0 == 0 then null else watcher)))
unfolding run call start construct copy_construct watch destruct keep_new remove_at new_shared
    copy_shared copy_weak drop_shared load allocate inc_use_count inc_weak_count dec_use_count
    dec_weak_count dispose destroy
lock-run_example = lock-run calls left 0 3 watcher 0 refl refl refl
