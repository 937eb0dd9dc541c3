-- ===== src/UniquePtr.antt =====
-- null/unique_ptr.h: a pointer that one object owns, with its deleter. A deleter has a state of
-- type `D`; `fresh` is the state of a new `base_type ()`, and `moved` what is left of a deleter
-- that was moved from.
pub mod Program
pub mod Ownership
mod Tests
use cc_snippets.Prelude.{ℕ, List, ◌∷◌, Option, none, some, Bool, true, false}

-- the base, which holds the deleter, and `ptr_`
pub record Unique {ℓ} (D : Type ℓ) : Type ℓ where
  pub del : D
  pub ptr : Option ℕ

module _ {ℓ} {D : Type ℓ} (fresh : D) (moved : D → D) where
  -- `unique_ptr (ptr)`; without a pointer, the default constructor and the one from nullptr
  unfoldable pub construct : Option ℕ → Unique D
  construct obj = record { del = fresh; ptr = obj }

  -- `unique_ptr (std::move (other))`: the new object, and what is left of `other`
  unfoldable pub move_construct : Unique D → Unique D × Unique D
  move_construct other =
      (record { del = other.del; ptr = other.ptr }, record { del = moved other.del; ptr = none })

module _ {ℓ} {D : Type ℓ} where
  -- `unique_ptr (ptr, del)`
  unfoldable pub construct_with : Option ℕ → D → Unique D
  construct_with obj del = record { del = del; ptr = obj }

  -- The destructor: the deleter, called on the pointer, if there is one. The log has the deleter's
  -- state and the object of each call, the last call first.
  unfoldable pub destruct : Unique D → List (D × ℕ) → List (D × ℕ)
  destruct this log = elim this.ptr [ none ↦ log | some obj ↦ (this.del, obj) ∷ log ]

  -- `this.swap (other)`
  unfoldable pub swap : Unique D → Unique D → Unique D × Unique D
  swap this other =
      (record { del = other.del; ptr = other.ptr }, record { del = this.del; ptr = this.ptr })

  -- the pointer, and the object that has given it up
  unfoldable pub release : Unique D → Option ℕ × Unique D
  release this = (this.ptr, record this { ptr = none })

  -- `operator bool`
  unfoldable pub is_set : Unique D → Bool
  is_set this = elim this.ptr [ none ↦ false | some _ ↦ true ]

module _ {ℓ} {D : Type ℓ} (fresh : D) (moved : D → D) where
  -- `unique_ptr (ptr).swap (*this)`, and the destructor of the temporary
  unfoldable pub reset : Option ℕ → Unique D → List (D × ℕ) → Unique D × List (D × ℕ)
  unfolding construct swap destruct
  reset obj this log =
      let (temp, this') = swap (construct fresh moved obj) this in (this', destruct temp log)

  -- `this = std::move (other)` for two objects: this, other, and the log
  unfoldable pub move_assign :
      Unique D → Unique D → List (D × ℕ) → Unique D × Unique D × List (D × ℕ)
  unfolding move_construct swap destruct
  move_assign this other log =
      let (temp, other') = move_construct fresh moved other in
      let (temp', this') = swap temp this in (this', other', destruct temp' log)

  -- the same for one object, `this = std::move (this)`
  unfoldable pub move_assign_self : Unique D → List (D × ℕ) → Unique D × List (D × ℕ)
  unfolding move_construct swap destruct
  move_assign_self this log =
      let (temp, left) = move_construct fresh moved this in
      let (temp', this') = swap temp left in (this', destruct temp' log)
