-- ===== src/SharedPtr/Claims.antt =====
-- What null/shared_ptr.h and null/weak_ptr.h promise the program that holds their objects.
use cc_snippets.Prelude.{
  ℕ, ◌+◌, ◌<◌, ◌≡◌, refl, sym, ap, ◌∙◌, List, [], ◌∷◌, some, ◌==◌, if◌then◌else◌, arith, not, inl,
  inr, ◌⊎◌, get_elem?,
}
use cc_snippets.SharedPtr.{Heap, Block, load}
use cc_snippets.SharedPtr.Counts.{times_disposed}
use cc_snippets.SharedPtr.Census.{handles, handles-pos, lock-IsCounted}
use cc_snippets.SharedPtr.Handles.{Ptr, null, lock, use_count, expired}
use cc_snippets.SharedPtr.Program.{World, Call, call, run, start}
use mathlib.Core.Path.{subst}
use mathlib.Core.Option.{some-injective}
use cc_snippets.SharedPtr.Safety
use cc_snippets.SharedPtr.Safety.{IsValid, Safe}
use cc_snippets.SharedPtr.WeakSafety

-- Each call keeps the world valid, and none is a fault.
call-Safe : (w : World) (c : Call) → IsValid w → Safe (call w c)
unfolding call
call-Safe w (Call.constructs a o) v = Safety.construct-Safe a o w v
call-Safe w (Call.copies j) v = Safety.copy_construct-Safe j w v
call-Safe w (Call.moves j) v = Safety.move_construct-Safe j w v
call-Safe w (Call.destructs i) v = Safety.destruct-Safe i w v
call-Safe w (Call.copy_assigns i j) v = Safety.copy_assign-Safe i j w v
call-Safe w (Call.move_assigns i j) v = Safety.move_assign-Safe i j w v
call-Safe w (Call.swaps i j) v = Safety.swap-Safe i j w v
call-Safe w (Call.resets i a o) v = Safety.reset-Safe i a o w v
call-Safe w (Call.watches j) v = WeakSafety.watch-Safe j w v
call-Safe w (Call.copies_weak j) v = WeakSafety.copy_construct_weak-Safe j w v
call-Safe w (Call.moves_weak j) v = WeakSafety.move_construct_weak-Safe j w v
call-Safe w (Call.destructs_weak i) v = WeakSafety.destruct_weak-Safe i w v
call-Safe w (Call.resets_weak i) v = WeakSafety.reset_weak-Safe i w v
call-Safe w (Call.copy_assigns_weak i j) v = WeakSafety.copy_assign_weak-Safe i j w v
call-Safe w (Call.move_assigns_weak i j) v = WeakSafety.move_assign_weak-Safe i j w v
call-Safe w (Call.swaps_weak i j) v = WeakSafety.swap_weak-Safe i j w v
call-Safe w (Call.watch_assigns i j) v = WeakSafety.watch_assign-Safe i j w v
call-Safe w (Call.locks f j) v = WeakSafety.lock_weak-Safe f j w v

run-Safe : (cs : List Call) (w : World) → IsValid w → Safe (run w cs)
unfolding run
run-Safe [] w v = (w, refl, v)
run-Safe (c ∷ cs) w v =
    let (w1, e, v1) = call-Safe w c v in let (w2, f, v2) = run-Safe cs w1 v1 in (w2, rw e f, v2)

start-IsValid : IsValid start
unfolding start
start-IsValid = record { counts = λ a. (refl, refl, refl); fresh = λ a le. refl }

reached-IsValid : (cs : List Call) (w : World) → run start cs ≡ some w → IsValid w
reached-IsValid cs w e =
    let (w', e', v) = run-Safe cs start start-IsValid in
    subst IsValid (some-injective _ _ (sym e' ∙ e)) v

-- Every sequence of constructions, copies, moves, assignments, swaps, resets, locks and
-- destructions of shared and weak pointers, from no object at all, runs with no access to a control
-- block that was never made or is already destroyed.
pub run_no_fault : (cs : List Call) → (w : World) × (run start cs ≡ some w)
run_no_fault cs = let (w, e, v) = run-Safe cs start start-IsValid in (w, e)

-- After every such sequence, each control block that was made has called its deleter once if no
-- shared pointer leads to it, and never if one does; and it is still allocated exactly when a
-- shared or a weak pointer leads to it.
pub run_lifetimes :
    (cs : List Call) (w : World) (a : ℕ) (b : Block)
    → run start cs ≡ some w
    → w.heap.block a ≡ some b
    → (times_disposed a w.heap.deletions ≡ (if handles w.shared a == 0 then 1 else 0))
      × (b.alive ≡ not (handles w.shared a + handles w.weak a == 0))
run_lifetimes cs w a b e f = ground (arith, (reached-IsValid cs w e).counts a)

held :
    (w : World) (i : ℕ) (p : Ptr) (cb : ℕ)
    → (get_elem? w.shared i ≡ some p) ⊎ (get_elem? w.weak i ≡ some p)
    → p.cb ≡ some cb
    → 0 < handles w.shared cb + handles w.weak cb
held w i p cb (inl e) g = omega (arith, handles-pos w.shared i cb p e g)
held w i p cb (inr e) g = omega (arith, handles-pos w.weak i cb p e g)

-- After every such sequence, use_count of a shared or weak pointer that the program holds is the
-- number of the shared pointers to its object, and expired tells whether there is none.
pub use_count-run :
    (cs : List Call) (w : World) (i : ℕ) (p : Ptr) (cb : ℕ)
    → run start cs ≡ some w
    → (get_elem? w.shared i ≡ some p) ⊎ (get_elem? w.weak i ≡ some p)
    → p.cb ≡ some cb
    → (use_count p w.heap ≡ some (handles w.shared cb))
      × (expired p w.heap ≡ some (handles w.shared cb == 0))
unfolding use_count expired load
use_count-run cs w i p cb e f g =
    ground (arith, (reached-IsValid cs w e).counts cb, held w i p cb f g)

-- After every such sequence, `lock ()` of a weak pointer that the program holds, to whatever
-- spurious failures of its exchange, gives a pointer to the same object if a shared pointer to it is
-- left, and an empty one if none is.
pub lock-run :
    (cs : List Call) (w : World) (j failures : ℕ) (p : Ptr) (cb : ℕ)
    → run start cs ≡ some w
    → get_elem? w.weak j ≡ some p
    → p.cb ≡ some cb
    → (h : Heap) × (lock failures p w.heap
        ≡ some (h, (if handles w.shared cb == 0 then null else p)))
lock-run cs w j failures p cb e f g =
    let (h, q, r, c, s) =
      lock-IsCounted p w.heap _ _ failures (reached-IsValid cs w e)
        (λ a d. handles-pos w.weak j a p f d) in
    (h, r ∙ ap (λ t. some (h, t)) (s cb g))
