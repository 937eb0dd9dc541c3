-- ===== src/SharedPtr/WeakSafety.antt =====
-- The calls of weak_ptr, of null/weak_ptr.h, and the counters.
use cc_snippets.Prelude.{ℕ, ◌+◌, refl, ◌∷◌, arith, Option-cases, inl, inr, get_elem?, set}
use cc_snippets.SharedPtr.Counts.{IsCounted, IsCounted-ext}
use cc_snippets.SharedPtr.Census.{
  claims, handles, handles-set, handles-remove_at, handles-pos, drop_weak-IsCounted,
  copy_weak-IsCounted, lock-IsCounted,
}
use cc_snippets.SharedPtr.Handles.{null}
use cc_snippets.SharedPtr.Program.{
  World, remove_at, at, swap_in_weak, watch, copy_construct_weak, move_construct_weak,
  destruct_weak, copy_assign_weak, watch_assign, move_assign_weak, swap_weak, reset_weak, lock_weak,
}
use cc_snippets.SharedPtr.Safety.{
  IsValid, Safe, at-Safe, swap_in_weak-Safe, get_elem?-set-some, get_elem?-set_other,
}

pub watch-Safe : (j : ℕ) (w : World) → IsValid w → Safe (watch j w)
unfolding watch
watch-Safe j w v = at-Safe w w.shared j _ v λ sp e.
    let (h, f, c) =
      copy_weak-IsCounted sp w.heap _ _ v
        (λ cb g. omega (arith, handles-pos w.shared j cb sp e g)) in
    (record w { heap = h; weak = sp ∷ w.weak }, rw f, c)

pub copy_construct_weak-Safe : (j : ℕ) (w : World) → IsValid w → Safe (copy_construct_weak j w)
unfolding copy_construct_weak
copy_construct_weak-Safe j w v = at-Safe w w.weak j _ v λ other e.
    let (h, f, c) =
      copy_weak-IsCounted other w.heap _ _ v
        (λ cb g. omega (arith, handles-pos w.weak j cb other e g)) in
    (record w { heap = h; weak = other ∷ w.weak }, rw f, c)

pub move_construct_weak-Safe : (j : ℕ) (w : World) → IsValid w → Safe (move_construct_weak j w)
unfolding move_construct_weak
move_construct_weak-Safe j w v = at-Safe w w.weak j _ v λ other e. (
  record w { weak = other ∷ set w.weak j null },
  refl,
  IsCounted-ext w.heap _ _ _ _ (λ a. refl) (λ a. omega (arith, handles-set w.weak j other null a e))
      v,
)

pub destruct_weak-Safe : (i : ℕ) (w : World) → IsValid w → Safe (destruct_weak i w)
unfolding destruct_weak
destruct_weak-Safe i w v = at-Safe w w.weak i _ v λ this e.
    let (h, f, c) = drop_weak-IsCounted this w.heap _ (handles (remove_at w.weak i)) (
      IsCounted-ext w.heap _ _ _ _ (λ a. refl)
        (λ a. omega (arith, handles-remove_at w.weak i this a e)) v) in
    (record w { heap = h; weak = remove_at w.weak i }, rw f, c)

pub copy_assign_weak-Safe : (i j : ℕ) (w : World) → IsValid w → Safe (copy_assign_weak i j w)
unfolding copy_assign_weak
copy_assign_weak-Safe i j w v = at-Safe w w.weak i _ v λ this d. at-Safe w w.weak j _ v λ other e.
    let (h, f, c) =
      copy_weak-IsCounted other w.heap _ _ v
        (λ cb g. omega (arith, handles-pos w.weak j cb other e g)) in
    rw f (swap_in_weak-Safe (record w { heap = h }) i other this d c)

pub watch_assign-Safe : (i j : ℕ) (w : World) → IsValid w → Safe (watch_assign i j w)
unfolding watch_assign
watch_assign-Safe i j w v = at-Safe w w.weak i _ v λ this d. at-Safe w w.shared j _ v λ sp e.
    let (h, f, c) =
      copy_weak-IsCounted sp w.heap _ _ v
        (λ cb g. omega (arith, handles-pos w.shared j cb sp e g)) in
    rw f (swap_in_weak-Safe (record w { heap = h }) i sp this d c)

pub move_assign_weak-Safe : (i j : ℕ) (w : World) → IsValid w → Safe (move_assign_weak i j w)
unfolding move_assign_weak
move_assign_weak-Safe i j w v = at-Safe w w.weak i _ v λ this d. at-Safe w w.weak j _ v λ other e.
    let (old, f) = get_elem?-set-some w.weak i j this null d in
    swap_in_weak-Safe (record w { weak = set w.weak j null }) i other old f
      (IsCounted-ext w.heap _ _ _ _ (λ a. refl)
        (λ a. omega (arith, handles-set w.weak j other null a e)) v)

pub swap_weak-Safe : (i j : ℕ) (w : World) → IsValid w → Safe (swap_weak i j w)
unfolding swap_weak
swap_weak-Safe i j w v = at-Safe w w.weak i _ v λ this d. at-Safe w w.weak j _ v λ other e. (
  record w { weak = set (set w.weak i other) j this },
  refl,
  IsCounted-ext w.heap _ _ _ _ (λ a. refl)
      (λ a. omega (
        arith,
        handles-set w.weak i this other a d,
        handles-set (set w.weak i other) j other this a
            (get_elem?-set_other w.weak i j this other d e),
      ))
      v,
)

pub reset_weak-Safe : (i : ℕ) (w : World) → IsValid w → Safe (reset_weak i w)
unfolding reset_weak
reset_weak-Safe i w v = elim (Option-cases (get_elem? w.weak i)) [
  | inl e ↦ (w, unfold swap_in_weak in (rw (e, at)), v)
  | inr (old, e) ↦ swap_in_weak-Safe w i null old e v0
]
  where
    v0 : IsCounted w.heap (handles w.shared) (λ a. claims null.cb a + handles w.weak a)
    v0 = IsCounted-ext w.heap _ _ _ _ (λ a. refl) (λ a. omega arith) v

pub lock_weak-Safe : (failures j : ℕ) (w : World) → IsValid w → Safe (lock_weak failures j w)
unfolding lock_weak
lock_weak-Safe failures j w v = at-Safe w w.weak j _ v λ this e.
    let (h, q, f, c, _) =
      lock-IsCounted this w.heap _ _ failures v (λ cb g. handles-pos w.weak j cb this e g) in
    (record w { heap = h; shared = q ∷ w.shared }, rw f, c)
