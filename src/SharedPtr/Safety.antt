-- ===== src/SharedPtr/Safety.antt =====
-- The calls of shared_ptr, of null/shared_ptr.h, and the counters.
use cc_snippets.Prelude.{
  ℕ, zero, suc, ◌+◌, ◌≡◌, refl, Bool, true, false, List, [], ◌∷◌, Option, none, some, arith,
  Option-cases, inl, inr, get_elem?, set,
}
use cc_snippets.SharedPtr.{Heap}
use cc_snippets.SharedPtr.Counts.{IsCounted, IsCounted-ext, allocate-IsCounted}
use cc_snippets.SharedPtr.Census.{
  claims, handles, handles-set, handles-remove_at, handles-pos, drop_shared-IsCounted,
  drop_weak-IsCounted, copy_shared-IsCounted,
}
use cc_snippets.SharedPtr.Handles.{Ptr, null, new_shared}
use cc_snippets.SharedPtr.Program.{
  World, remove_at, at, swap_in, swap_in_weak, keep_new, swap_new, construct, copy_construct,
  move_construct, destruct, copy_assign, move_assign, swap, reset,
}

-- What every call keeps: the counters of each block are the numbers of the handles that lead to it.
abbrev pub IsValid : World → Type 0
IsValid w = IsCounted w.heap (handles w.shared) (handles w.weak)

-- The call is no fault, and keeps the world valid.
abbrev pub Safe : Option World → Type 0
Safe r = (w : World) × (r ≡ some w) × IsValid w

pub at-Safe :
    (w : World) (l : List Ptr) (i : ℕ) (f : Ptr → Option World)
    → IsValid w
    → ((p : Ptr) → get_elem? l i ≡ some p → Safe (f p))
    → Safe (at w l i f)
at-Safe w l i f v g = elim (Option-cases (get_elem? l i)) [
  | inl e ↦ (w, rw (e, at), v)
  | inr (p, e) ↦ let (w', h, v') = g p e in (w', rw (e, at) h, v')
]

-- A write leaves every place in range, and puts the value at its own.
pub get_elem?-set-some :
    (l : List Ptr) (i j : ℕ) (p q : Ptr)
    → get_elem? l i ≡ some p
    → (r : Ptr) × (get_elem? (set l j q) i ≡ some r)
get_elem?-set-some [] i j p q e = cc
get_elem?-set-some (x ∷ l) zero zero p q e = (q, refl)
get_elem?-set-some (x ∷ l) zero (suc j) p q e = (x, refl)
get_elem?-set-some (x ∷ l) (suc i) zero p q e = (p, e)
get_elem?-set-some (x ∷ l) (suc i) (suc j) p q e = get_elem?-set-some l i j p q e

pub get_elem?-set_other :
    (l : List Ptr) (i j : ℕ) (p q : Ptr)
    → get_elem? l i ≡ some p
    → get_elem? l j ≡ some q
    → get_elem? (set l i q) j ≡ some q
get_elem?-set_other [] i j p q e f = cc
get_elem?-set_other (x ∷ l) zero zero p q e f = refl
get_elem?-set_other (x ∷ l) zero (suc j) p q e f = f
get_elem?-set_other (x ∷ l) (suc i) zero p q e f = f
get_elem?-set_other (x ∷ l) (suc i) (suc j) p q e f = get_elem?-set_other l i j p q e f

-- The heap counts `temp` beside the handles of the lists; it is swapped in, and the old one goes.
pub swap_in-Safe :
    (w : World) (i : ℕ) (temp old : Ptr)
    → get_elem? w.shared i ≡ some old
    → IsCounted w.heap (λ a. claims temp.cb a + handles w.shared a) (handles w.weak)
    → Safe (swap_in w i temp)
unfolding swap_in
swap_in-Safe w i temp old e c =
    let (h, f, c') =
      drop_shared-IsCounted old w.heap (handles (set w.shared i temp)) (handles w.weak) (
        IsCounted-ext w.heap _ _ _ _ (λ a. omega (arith, handles-set w.shared i old temp a e))
          (λ a. refl) c) in
    (record w { heap = h; shared = set w.shared i temp }, rw (e, at, f), c')

pub swap_in_weak-Safe :
    (w : World) (i : ℕ) (temp old : Ptr)
    → get_elem? w.weak i ≡ some old
    → IsCounted w.heap (handles w.shared) (λ a. claims temp.cb a + handles w.weak a)
    → Safe (swap_in_weak w i temp)
unfolding swap_in_weak
swap_in_weak-Safe w i temp old e c =
    let (h, f, c') =
      drop_weak-IsCounted old w.heap (handles w.shared) (handles (set w.weak i temp)) (
        IsCounted-ext w.heap _ _ _ _ (λ a. refl)
          (λ a. omega (arith, handles-set w.weak i old temp a e)) c) in
    (record w { heap = h; weak = set w.weak i temp }, rw (e, at, f), c')

-- The handle that a constructor made, if any.
abbrev made : Option Ptr → ℕ → ℕ
made none a = 0
made (some p) a = claims p.cb a

pub copy_construct-Safe : (j : ℕ) (w : World) → IsValid w → Safe (copy_construct j w)
unfolding copy_construct
copy_construct-Safe j w v = at-Safe w w.shared j _ v λ other e.
    let (h, f, c) =
      copy_shared-IsCounted other w.heap _ _ v (λ cb g. handles-pos w.shared j cb other e g) in
    (record w { heap = h; shared = other ∷ w.shared }, rw f, c)

pub move_construct-Safe : (j : ℕ) (w : World) → IsValid w → Safe (move_construct j w)
unfolding move_construct
move_construct-Safe j w v = at-Safe w w.shared j _ v λ other e. (
  record w { shared = other ∷ set w.shared j null },
  refl,
  IsCounted-ext w.heap _ _ _ _ (λ a. omega (arith, handles-set w.shared j other null a e))
      (λ a. refl) v,
)

pub destruct-Safe : (i : ℕ) (w : World) → IsValid w → Safe (destruct i w)
unfolding destruct
destruct-Safe i w v = at-Safe w w.shared i _ v λ this e.
    let (h, f, c) = drop_shared-IsCounted this w.heap (handles (remove_at w.shared i)) _ (
      IsCounted-ext w.heap _ _ _ _ (λ a. omega (arith, handles-remove_at w.shared i this a e))
        (λ a. refl) v) in
    (record w { heap = h; shared = remove_at w.shared i }, rw f, c)

pub copy_assign-Safe : (i j : ℕ) (w : World) → IsValid w → Safe (copy_assign i j w)
unfolding copy_assign
copy_assign-Safe i j w v = at-Safe w w.shared i _ v λ this d. at-Safe w w.shared j _ v λ other e.
    let (h, f, c) =
      copy_shared-IsCounted other w.heap _ _ v (λ cb g. handles-pos w.shared j cb other e g) in
    rw f (swap_in-Safe (record w { heap = h }) i other this d c)

pub move_assign-Safe : (i j : ℕ) (w : World) → IsValid w → Safe (move_assign i j w)
unfolding move_assign
move_assign-Safe i j w v = at-Safe w w.shared i _ v λ this d. at-Safe w w.shared j _ v λ other e.
    let (old, f) = get_elem?-set-some w.shared i j this null d in
    swap_in-Safe (record w { shared = set w.shared j null }) i other old f
      (IsCounted-ext w.heap _ _ _ _ (λ a. omega (arith, handles-set w.shared j other null a e))
        (λ a. refl) v)

pub swap-Safe : (i j : ℕ) (w : World) → IsValid w → Safe (swap i j w)
unfolding swap
swap-Safe i j w v = at-Safe w w.shared i _ v λ this d. at-Safe w w.shared j _ v λ other e. (
  record w { shared = set (set w.shared i other) j this },
  refl,
  IsCounted-ext w.heap _ _ _ _
      (λ a. omega (
        arith,
        handles-set w.shared i this other a d,
        handles-set (set w.shared i other) j other this a
            (get_elem?-set_other w.shared i j this other d e),
      ))
      (λ a. refl) v,
)

-- A constructor from a pointer counts its handle, if there is one, and loses no block if it throws.
new_shared-IsCounted :
    (allocates : Bool) (obj : Option ℕ) (h : Heap) (strong weak : ℕ → ℕ)
    → IsCounted h strong weak
    → let (h', r) = new_shared allocates obj h in IsCounted h' (λ a. made r a + strong a) weak
unfolding new_shared
new_shared-IsCounted allocates none h strong weak c =
    IsCounted-ext h strong _ weak weak (λ a. omega arith) (λ a. refl) c
new_shared-IsCounted true (some p) h strong weak c =
    IsCounted-ext _ _ _ weak weak (λ a. ground arith) (λ a. refl)
      (allocate-IsCounted p h strong weak c)
new_shared-IsCounted false (some p) h strong weak c = record {
  counts = λ a. ground (arith, c.counts a);
  fresh = c.fresh;
}

keep_new-IsValid :
    (w : World) (h : Heap) (r : Option Ptr)
    → IsCounted h (λ a. made r a + handles w.shared a) (handles w.weak)
    → IsValid (keep_new w h r)
unfolding keep_new
keep_new-IsValid w h none c = IsCounted-ext h _ _ _ _ (λ a. omega arith) (λ a. refl) c
keep_new-IsValid w h (some p) c = c

pub construct-Safe :
    (allocates : Bool) (obj : Option ℕ) (w : World) → IsValid w → Safe (construct allocates obj w)
unfolding construct
construct-Safe allocates obj w v =
    (_, refl, keep_new-IsValid w _ _ (new_shared-IsCounted allocates obj w.heap _ _ v))

pub swap_new-Safe :
    (w : World) (i : ℕ) (h : Heap) (r : Option Ptr) (old : Ptr)
    → get_elem? w.shared i ≡ some old
    → IsCounted h (λ a. made r a + handles w.shared a) (handles w.weak)
    → Safe (swap_new w i h r)
unfolding swap_new
swap_new-Safe w i h none old e c =
    (record w { heap = h }, refl, IsCounted-ext h _ _ _ _ (λ a. omega arith) (λ a. refl) c)
swap_new-Safe w i h (some temp) old e c = swap_in-Safe (record w { heap = h }) i temp old e c

pub reset-Safe :
    (i : ℕ) (allocates : Bool) (obj : Option ℕ) (w : World)
    → IsValid w
    → Safe (reset i allocates obj w)
unfolding reset
reset-Safe i allocates obj w v =
    at-Safe w w.shared i _ v
      λ this e. swap_new-Safe w i _ _ this e (new_shared-IsCounted allocates obj w.heap _ _ v)
