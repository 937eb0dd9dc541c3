-- ===== src/SharedPtr.antt =====
-- null/shared_ptr.h and null/weak_ptr.h: control blocks on a heap, and the handles that share
-- them. A call that reads a control block which was never made or is already destroyed is a
-- fault, `none`. The counters, of type long, are numbers without a bound.
pub mod Counts
pub mod Handles
pub mod Program
pub mod Census
pub mod Safety
pub mod WeakSafety
pub mod Claims
pub mod Threads
mod Tests
use cc_snippets.Prelude.{
  ℕ, zero, suc, ◌+◌, ◌-◌, Bool, true, false, List, [], ◌∷◌, Option, none, some, ◌==◌, if◌then◌else◌,
}

-- `control_block`; `alive` goes false when destroy deletes it
pub record Block : Type 0 where
  pub ptr : ℕ
  pub use_count : ℕ
  pub weak_count : ℕ
  pub alive : Bool

-- A call of a deleter: of the one in a control block, by dispose, or of the argument of a
-- constructor that could not allocate the block.
pub data Deletion : Type 0 where
  disposed : (cb ptr : ℕ) → Deletion
  abandoned : (ptr : ℕ) → Deletion

-- Control blocks by address; `next` is the address of the next one.
pub record Heap : Type 0 where
  pub block : ℕ → Option Block
  pub next : ℕ
  pub deletions : List Deletion

infixl 5 ◌>>=◌
abbrev pub ◌>>=◌ {ℓ κ} : {A : Type ℓ} {B : Type κ} → Option A → (A → Option B) → Option B
◌>>=◌ none f = none
◌>>=◌ (some a) f = f a

unfoldable pub load : ℕ → Heap → Option Block
load cb h = elim (h.block cb) [ none ↦ none | some b ↦ if b.alive then some b else none ]

abbrev pub store : ℕ → Block → Heap → Heap
store cb b h = record h { block = λ a. if a == cb then some b else h.block a }

-- `new control_block<U, Deleter> (ptr, del)`
unfoldable pub allocate : ℕ → Heap → Heap
allocate ptr h =
    record (store h.next (record { ptr = ptr; use_count = 1; weak_count = 1; alive = true }) h) {
      next = h.next + 1;
    }

unfoldable pub inc_use_count : ℕ → Heap → Option Heap
unfolding load
inc_use_count cb h = do b ← load cb h; some (store cb (record b { use_count = b.use_count + 1 }) h)

unfoldable pub inc_weak_count : ℕ → Heap → Option Heap
unfolding load
inc_weak_count cb h = do
  b ← load cb h
  some (store cb (record b { weak_count = b.weak_count + 1 }) h)

-- The loop of lock_use_count, behind the first load. compare_exchange_weak may fail for no reason:
-- `failures` says how often it does before it succeeds, and each failure loads the count again.
unfoldable pub lock_loop : ℕ → ℕ → ℕ → Heap → Option (Heap × Bool)
unfolding load
lock_loop zero count cb h =
    if count == 0
    then some (h, false)
    else do b ← load cb h; some (store cb (record b { use_count = count + 1 }) h, true)
lock_loop (suc failures) count cb h =
    let again = (do b ← load cb h; lock_loop failures b.use_count cb h) in
    if count == 0 then some (h, false) else again

unfoldable pub lock_use_count : ℕ → ℕ → Heap → Option (Heap × Bool)
unfolding load lock_loop
lock_use_count failures cb h = do b ← load cb h; lock_loop failures b.use_count cb h

-- `delete this`
unfoldable pub destroy : ℕ → Block → Heap → Heap
destroy cb b h = store cb (record b { alive = false }) h

-- `del (ptr)`
unfoldable pub dispose : ℕ → Block → Heap → Heap
dispose cb b h = record h { deletions = disposed cb b.ptr ∷ h.deletions }

unfoldable pub dec_weak_count : ℕ → Heap → Option Heap
unfolding load destroy
dec_weak_count cb h = do
  b ← load cb h
  let b' = record b { weak_count = b.weak_count - 1 }
  some (if b.weak_count == 1 then destroy cb b' (store cb b' h) else store cb b' h)

unfoldable pub dec_use_count : ℕ → Heap → Option Heap
unfolding load dispose dec_weak_count
dec_use_count cb h = do
  b ← load cb h
  let b' = record b { use_count = b.use_count - 1 }
  if b.use_count == 1
      then dec_weak_count cb (dispose cb b' (store cb b' h))
      else some (store cb b' h)
