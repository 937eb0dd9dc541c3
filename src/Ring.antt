-- ===== src/Ring.antt =====
-- null/spsc_ring_buffer.h: the ring buffer of one producer and one consumer. `capacity` is the
-- template's Capacity, and `blank` is the value that make_unique gives each cell. The functions
-- here run a whole call; Ring/Machine interleaves the calls' atomic accesses.
pub mod Window
pub mod Machine
pub mod Slots
pub mod Invariant
pub mod Contents
pub mod Threads
pub mod Steps
pub mod Weak
pub mod Sequential
mod Tests
use cc_snippets.Prelude.{
  ℕ, ◌+◌, ◌-◌, ◌%◌, ◌^◌, Bool, true, false, List, ◌==◌, leb, if◌then◌else◌, set, get_or, replicate,
}

pub record Ring {ℓ} (A : Type ℓ) : Type ℓ where
  pub head : ℕ
  pub tail : ℕ
  pub buffer : List A

-- `Capacity + 1` in size_t
abbrev pub slots : ℕ → ℕ
slots capacity = (capacity + 1) % 2 ^ 64

-- `(index + 1) % (Capacity + 1)` in size_t
abbrev pub next_index : ℕ → ℕ → ℕ
next_index capacity i = (i + 1) % 2 ^ 64 % slots capacity

-- What size returns when its two loads gave `curr_head` and `curr_tail`.
unfoldable pub size_of_loads : ℕ → ℕ → ℕ → ℕ
size_of_loads capacity curr_head curr_tail =
    if leb curr_tail curr_head
    then curr_head - curr_tail
    else (slots capacity + 2 ^ 64 - (curr_tail - curr_head)) % 2 ^ 64

module _ {ℓ} {A : Type ℓ} (capacity : ℕ) where
  -- the constructor
  unfoldable pub init : A → Ring A
  init blank = record { head = 0; tail = 0; buffer = replicate (slots capacity) blank }

  -- push: the new ring, and the Boolean that it returns
  unfoldable pub push : Ring A → A → Ring A × Bool
  push r item =
      let next_head = next_index capacity r.head in
      if next_head == r.tail
      then (r, false)
      else (record r { head = next_head; buffer = set r.buffer r.head item }, true)

  -- pop: `elem` comes in with its old value, and goes out with the new one
  unfoldable pub pop : A → Ring A → A → Ring A × Bool × A
  pop blank r elem =
      if r.tail == r.head
      then (r, false, elem)
      else (record r { tail = next_index capacity r.tail }, true, get_or r.buffer r.tail blank)

  unfoldable pub size : Ring A → ℕ
  unfolding size_of_loads
  size r = size_of_loads capacity r.head r.tail

  unfoldable pub is_full : Ring A → Bool
  is_full r = next_index capacity r.head == r.tail

unfoldable pub is_empty {ℓ} : {A : Type ℓ} → Ring A → Bool
is_empty r = r.head == r.tail
