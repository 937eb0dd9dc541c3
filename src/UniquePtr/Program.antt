-- ===== src/UniquePtr/Program.antt =====
-- A program that holds unique_ptr objects of null/unique_ptr.h and calls their member functions
-- in any order. Objects are named by their place in a list; a call on a place that there is not
-- is no call.
use cc_snippets.Prelude.{
  ℕ, zero, suc, ◌==◌, if◌then◌else◌, List, [], ◌∷◌, Option, none, some, get_elem?, set,
}
use cc_snippets.UniquePtr.{
  Unique, construct, construct_with, move_construct, destruct, swap, reset, release, move_assign,
  move_assign_self,
}

-- `log` has the calls of deleters, `released` the pointers that release gave away, and `adopted`
-- those that the program gave to constructors and to reset.
pub record World {ℓ} (D : Type ℓ) : Type ℓ where
  pub objects : List (Unique D)
  pub log : List (D × ℕ)
  pub released : List (Option ℕ)
  pub adopted : List (Option ℕ)

pub data Call {ℓ} (D : Type ℓ) : Type ℓ where
  constructs : Option ℕ → Call D
  constructs_with : Option ℕ → D → Call D
  moves destructs releases : ℕ → Call D
  move_assigns swaps : ℕ → ℕ → Call D
  resets : ℕ → Option ℕ → Call D

unfoldable pub remove_at {ℓ} : {A : Type ℓ} → List A → ℕ → List A
remove_at [] i = []
remove_at (p ∷ l) zero = l
remove_at (p ∷ l) (suc i) = p ∷ remove_at l i

module _ {ℓ} {D : Type ℓ} where
  abbrev pub at : World D → ℕ → (Unique D → World D) → World D
  at w i f = elim (get_elem? w.objects i) [ none ↦ w | some u ↦ f u ]

module _ {ℓ} {D : Type ℓ} (fresh : D) (moved : D → D) where
  unfoldable pub call : World D → Call D → World D
  unfolding construct construct_with move_construct destruct swap reset release move_assign
      move_assign_self remove_at
  call w (constructs obj) = record w {
    objects = construct fresh moved obj ∷ w.objects;
    adopted = obj ∷ w.adopted;
  }
  call w (constructs_with obj del) = record w {
    objects = construct_with obj del ∷ w.objects;
    adopted = obj ∷ w.adopted;
  }
  call w (moves j) = at w j λ other.
      let (this, left) = move_construct fresh moved other in
      record w { objects = this ∷ set w.objects j left }
  call w (destructs i) =
      at w i λ this. record w { objects = remove_at w.objects i; log = destruct this w.log }
  call w (releases i) = at w i λ this.
      let (obj, this') = release this in
      record w { objects = set w.objects i this'; released = obj ∷ w.released }
  call w (move_assigns i j) = at w i λ this. at w j λ other.
      if i == j
      then (let (this', log) = move_assign_self fresh moved this w.log in
          record w { objects = set w.objects i this'; log = log })
      else (let (this', other', log) = move_assign fresh moved this other w.log in
          record w { objects = set (set w.objects i this') j other'; log = log })
  call w (swaps i j) = at w i λ this. at w j λ other.
      let (this', other') = swap this other in
      record w { objects = set (set w.objects i this') j other' }
  call w (resets i obj) = at w i λ this.
      let (this', log) = reset fresh moved obj this w.log in
      record w { objects = set w.objects i this'; log = log; adopted = obj ∷ w.adopted }

  unfoldable pub run : World D → List (Call D) → World D
  unfolding call
  run w [] = w
  run w (c ∷ cs) = run (call w c) cs

unfoldable pub start {ℓ} : {D : Type ℓ} → World D
start = record { objects = []; log = []; released = []; adopted = [] }
