-- ===== src/SharedPtr/Handles.antt =====
-- shared_ptr and weak_ptr of null/shared_ptr.h and null/weak_ptr.h as handles: what each member
-- function does to the heap, and to the handles that it is called on.
use cc_snippets.Prelude.{ℕ, Bool, true, false, ◌∷◌, Option, none, some, ◌==◌, if◌then◌else◌}
use cc_snippets.SharedPtr.{
  abandoned, Heap, load, allocate, inc_use_count, inc_weak_count, lock_use_count, dec_weak_count,
  dec_use_count, ◌>>=◌,
}

-- `ptr_` and `cb_`, of a shared_ptr or of a weak_ptr
pub record Ptr : Type 0 where
  pub ptr : Option ℕ
  pub cb : Option ℕ

abbrev pub null : Ptr
null = record { ptr = none; cb = none }

-- `shared_ptr (U *ptr, Deleter del)`. `allocates` tells whether `new` succeeds; if not, the object
-- is deleted, and the result is `none` for the exception that goes on.
unfoldable pub new_shared : Bool → Option ℕ → Heap → Heap × Option Ptr
unfolding allocate
new_shared allocates none h = (h, some null)
new_shared true (some p) h = (allocate p h, some (record { ptr = some p; cb = some h.next }))
new_shared false (some p) h = (record h { deletions = abandoned p ∷ h.deletions }, none)

-- `if (cb_) cb_->f ();`
abbrev on_block : (ℕ → Heap → Option Heap) → Option ℕ → Heap → Option Heap
on_block f none h = some h
on_block f (some cb) h = f cb h

-- the copy constructors
unfoldable pub copy_shared : Ptr → Heap → Option Heap
unfolding inc_use_count
copy_shared p h = on_block inc_use_count p.cb h

-- also `weak_ptr (const shared_ptr<U> &sp)`
unfoldable pub copy_weak : Ptr → Heap → Option Heap
unfolding inc_weak_count
copy_weak p h = on_block inc_weak_count p.cb h

-- the destructors
unfoldable pub drop_shared : Ptr → Heap → Option Heap
unfolding dec_use_count
drop_shared p h = on_block dec_use_count p.cb h

unfoldable pub drop_weak : Ptr → Heap → Option Heap
unfolding dec_weak_count
drop_weak p h = on_block dec_weak_count p.cb h

-- `lock ()` of a weak_ptr
unfoldable pub lock : ℕ → Ptr → Heap → Option (Heap × Ptr)
unfolding lock_use_count
lock failures p h = elim p.cb [
  | none ↦ some (h, null)
  | some cb ↦ do (h', locked) ← lock_use_count failures cb h; some (h', if locked then p else null)
]

-- `use_count ()` of either class
unfoldable pub use_count : Ptr → Heap → Option ℕ
unfolding load
use_count p h = elim p.cb [ none ↦ some 0 | some cb ↦ do b ← load cb h; some b.use_count ]

unfoldable pub expired : Ptr → Heap → Option Bool
unfolding use_count
expired p h = do n ← use_count p h; some (n == 0)

-- `operator bool`
unfoldable pub is_set : Ptr → Bool
is_set p = elim p.ptr [ none ↦ false | some _ ↦ true ]
