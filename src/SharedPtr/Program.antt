-- ===== src/SharedPtr/Program.antt =====
-- A program that holds shared_ptr and weak_ptr objects of null/shared_ptr.h and null/weak_ptr.h
-- and calls their member functions in any order. Objects are named by their place in a list; a
-- call on a place that there is not is no call.
use cc_snippets.Prelude.{ℕ, zero, suc, Bool, List, [], ◌∷◌, Option, none, some, get_elem?, set}
use cc_snippets.SharedPtr.{Heap, ◌>>=◌}
use cc_snippets.SharedPtr.Handles.{
  Ptr, null, new_shared, copy_shared, copy_weak, drop_shared, drop_weak, lock,
}

pub record World : Type 0 where
  pub heap : Heap
  pub shared : List Ptr
  pub weak : List Ptr

unfoldable pub remove_at : List Ptr → ℕ → List Ptr
remove_at [] i = []
remove_at (p ∷ l) zero = l
remove_at (p ∷ l) (suc i) = p ∷ remove_at l i

-- `place` holds the object that a call names.
abbrev pub at : World → List Ptr → ℕ → (Ptr → Option World) → Option World
at w l i f = elim (get_elem? l i) [ none ↦ some w | some p ↦ f p ]

-- `temp.swap (*this);` and the destructor of the temporary: the end of each assignment and reset
unfoldable pub swap_in : World → ℕ → Ptr → Option World
unfolding drop_shared
swap_in w i temp =
    at w w.shared i λ old. do
      h ← drop_shared old w.heap
      some (record w { heap = h; shared = set w.shared i temp })

unfoldable pub swap_in_weak : World → ℕ → Ptr → Option World
unfolding drop_weak
swap_in_weak w i temp =
    at w w.weak i
      λ old. do h ← drop_weak old w.heap; some (record w { heap = h; weak = set w.weak i temp })

unfoldable pub keep_new : World → Heap → Option Ptr → World
keep_new w h none = record w { heap = h }
keep_new w h (some p) = record w { heap = h; shared = p ∷ w.shared }

-- `shared_ptr p (ptr)`
unfoldable pub construct : Bool → Option ℕ → World → Option World
unfolding new_shared keep_new
construct allocates obj w = let (h, r) = new_shared allocates obj w.heap in some (keep_new w h r)

-- `shared_ptr p (other)`
unfoldable pub copy_construct : ℕ → World → Option World
unfolding copy_shared
copy_construct j w = at w w.shared j λ other. do
  h ← copy_shared other w.heap
  some (record w { heap = h; shared = other ∷ w.shared })

-- `shared_ptr p (std::move (other))`
unfoldable pub move_construct : ℕ → World → Option World
move_construct j w =
    at w w.shared j λ other. some (record w { shared = other ∷ set w.shared j null })

-- the destructor
unfoldable pub destruct : ℕ → World → Option World
unfolding drop_shared remove_at
destruct i w = at w w.shared i λ this. do
  h ← drop_shared this w.heap
  some (record w { heap = h; shared = remove_at w.shared i })

-- `this = other`
unfoldable pub copy_assign : ℕ → ℕ → World → Option World
unfolding copy_shared swap_in
copy_assign i j w = at w w.shared i λ this.
    at w w.shared j
      λ other. do h ← copy_shared other w.heap; swap_in (record w { heap = h }) i other

-- `this = std::move (other)`; the temporary takes `other` before it is swapped in
unfoldable pub move_assign : ℕ → ℕ → World → Option World
unfolding swap_in
move_assign i j w =
    at w w.shared i
      λ this. at w w.shared j λ other. swap_in (record w { shared = set w.shared j null }) i other

unfoldable pub swap : ℕ → ℕ → World → Option World
swap i j w =
    at w w.shared i λ this.
      at w w.shared j λ other. some (record w { shared = set (set w.shared i other) j this })

unfoldable pub swap_new : World → ℕ → Heap → Option Ptr → Option World
unfolding swap_in
swap_new w i h none = some (record w { heap = h })
swap_new w i h (some temp) = swap_in (record w { heap = h }) i temp

unfoldable pub reset : ℕ → Bool → Option ℕ → World → Option World
unfolding new_shared swap_new
reset i allocates obj w =
    at w w.shared i λ this. let (h, r) = new_shared allocates obj w.heap in swap_new w i h r

-- `weak_ptr p (sp)`
unfoldable pub watch : ℕ → World → Option World
unfolding copy_weak
watch j w =
    at w w.shared j
      λ sp. do h ← copy_weak sp w.heap; some (record w { heap = h; weak = sp ∷ w.weak })

unfoldable pub copy_construct_weak : ℕ → World → Option World
unfolding copy_weak
copy_construct_weak j w =
    at w w.weak j
      λ other. do h ← copy_weak other w.heap; some (record w { heap = h; weak = other ∷ w.weak })

unfoldable pub move_construct_weak : ℕ → World → Option World
move_construct_weak j w =
    at w w.weak j λ other. some (record w { weak = other ∷ set w.weak j null })

unfoldable pub destruct_weak : ℕ → World → Option World
unfolding drop_weak remove_at
destruct_weak i w =
    at w w.weak i
      λ this. do h ← drop_weak this w.heap; some (record w { heap = h; weak = remove_at w.weak i })

unfoldable pub copy_assign_weak : ℕ → ℕ → World → Option World
unfolding copy_weak swap_in_weak
copy_assign_weak i j w = at w w.weak i λ this.
    at w w.weak j
      λ other. do h ← copy_weak other w.heap; swap_in_weak (record w { heap = h }) i other

-- `this = sp`
unfoldable pub watch_assign : ℕ → ℕ → World → Option World
unfolding copy_weak swap_in_weak
watch_assign i j w = at w w.weak i λ this.
    at w w.shared j λ sp. do h ← copy_weak sp w.heap; swap_in_weak (record w { heap = h }) i sp

unfoldable pub move_assign_weak : ℕ → ℕ → World → Option World
unfolding swap_in_weak
move_assign_weak i j w =
    at w w.weak i
      λ this. at w w.weak j λ other. swap_in_weak (record w { weak = set w.weak j null }) i other

unfoldable pub swap_weak : ℕ → ℕ → World → Option World
swap_weak i j w =
    at w w.weak i
      λ this. at w w.weak j λ other. some (record w { weak = set (set w.weak i other) j this })

unfoldable pub reset_weak : ℕ → World → Option World
unfolding swap_in_weak
reset_weak i w = swap_in_weak w i null

-- `shared_ptr p = weak.lock ()`
unfoldable pub lock_weak : ℕ → ℕ → World → Option World
unfolding lock
lock_weak failures j w = at w w.weak j λ this. do
  (h, p) ← lock failures this w.heap
  some (record w { heap = h; shared = p ∷ w.shared })

-- A call of one of the member functions.
pub data Call : Type 0 where
  constructs : (allocates : Bool) → (obj : Option ℕ) → Call
  copies moves destructs : ℕ → Call
  copy_assigns move_assigns swaps : ℕ → ℕ → Call
  resets : ℕ → (allocates : Bool) → (obj : Option ℕ) → Call
  watches copies_weak moves_weak destructs_weak resets_weak : ℕ → Call
  copy_assigns_weak move_assigns_weak swaps_weak watch_assigns : ℕ → ℕ → Call
  locks : (failures : ℕ) → ℕ → Call

unfoldable pub call : World → Call → Option World
unfolding construct copy_construct move_construct destruct copy_assign move_assign swap reset watch
    copy_construct_weak move_construct_weak destruct_weak reset_weak copy_assign_weak
    move_assign_weak swap_weak watch_assign lock_weak
call w (constructs a o) = construct a o w
call w (copies j) = copy_construct j w
call w (moves j) = move_construct j w
call w (destructs i) = destruct i w
call w (copy_assigns i j) = copy_assign i j w
call w (move_assigns i j) = move_assign i j w
call w (swaps i j) = swap i j w
call w (resets i a o) = reset i a o w
call w (watches j) = watch j w
call w (copies_weak j) = copy_construct_weak j w
call w (moves_weak j) = move_construct_weak j w
call w (destructs_weak i) = destruct_weak i w
call w (resets_weak i) = reset_weak i w
call w (copy_assigns_weak i j) = copy_assign_weak i j w
call w (move_assigns_weak i j) = move_assign_weak i j w
call w (swaps_weak i j) = swap_weak i j w
call w (watch_assigns i j) = watch_assign i j w
call w (locks f j) = lock_weak f j w

unfoldable pub run : World → List Call → Option World
unfolding call
run w [] = some w
run w (c ∷ cs) = do w' ← call w c; run w' cs

-- no handle, and nothing on the heap
unfoldable pub start : World
start = record {
  heap = record { block = λ a. none; next = 0; deletions = [] };
  shared = [];
  weak = [];
}
