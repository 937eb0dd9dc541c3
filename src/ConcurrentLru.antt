-- ===== src/ConcurrentLru.antt =====
-- null/concurrent_lru_cache.h: the cache of null/lru_cache.h behind a mutex. The body of a call is
-- cut at its accesses of the list and of the map, each of which is one step of the thread, whoever
-- holds the mutex; a run takes the steps of any threads in any order. A call gives what it returns:
-- the pointer to the value, or nullptr; a caller reads through it on its own, without the mutex.
pub mod Alone
pub mod Places
pub mod Order
mod Tests
use cc_snippets.Prelude.{
  ℕ, ◌+◌, List, [], ◌∷◌, ◌++◌, Option, none, some, get_elem?, set, replicate, leb, length,
  if◌then◌else◌,
}
use cc_snippets.Lru.{
  Node, Cache, init, find, erase, assign, splice_front, set_value, back, pop_back,
}
use cc_snippets.Lru.Refine.{Call, get_of, put_of}

-- Where a thread stands behind its lock_guard: before which of the accesses of get and put.
pub data Point (K V : Type 0) : Type 0 where
  -- `map_.find (key)`
  finding : Call K V → Point K V
  -- `it->second->second = value`
  setting : (it : ℕ) → V → Point K V
  -- the splice to the front, and what is returned behind it
  moving : (it : ℕ) → Option ℕ → Point K V
  -- `list_.size () >= capacity_` and `map_.erase (list_.back ().first)`
  evicting : K → V → Point K V
  -- `list_.pop_back ()`
  popping : K → V → Point K V
  -- `list_.push_front ({ key, value })`
  pushing : K → V → Point K V
  -- `map_[key] = list_.begin ()`
  mapping : K → (it : ℕ) → Point K V
  -- the return, which releases the mutex
  returning : Option ℕ → Point K V

-- Where a thread stands: before the lock_guard, or behind it.
pub data Thread (K V : Type 0) : Type 0 where
  outside : Thread K V
  locking : Call K V → Thread K V
  inside : Call K V → Point K V → Thread K V

-- `owner` is the thread that holds mutex_. `finished` has the calls in the order in which they
-- returned, and `results` what each returned.
pub record World (K V : Type 0) : Type 0 where
  pub cache : Cache K V
  pub owner : Option ℕ
  pub threads : List (Thread K V)
  pub finished : List (Call K V)
  pub results : List (Option ℕ)

pub data Event (K V : Type 0) : Type 0 where
  calls : (thread : ℕ) → Call K V → Event K V
  locks works : (thread : ℕ) → Event K V

-- a cache with so many threads, all outside of it
abbrev pub around : {K V : Type 0} → ℕ → Cache K V → World K V
around threads c = record {
  cache = c;
  owner = none;
  threads = replicate threads outside;
  finished = [];
  results = [];
}

-- the constructor; `none` is the exception that it throws
unfoldable pub start : {K V : Type 0} → ℕ → (threads : ℕ) → Option (World K V)
unfolding init
start capacity threads = elim (init capacity) [ none ↦ none | some c ↦ some (around threads c) ]

module _ {K V : Type 0} where
  unfoldable pub begin : World K V → ℕ → Call K V → Option (Thread K V) → World K V
  begin w i c (some outside) = record w { threads = set w.threads i (locking c) }
  begin w i c _ = w

  unfoldable pub take_mutex : World K V → ℕ → Option (Thread K V) → Option ℕ → World K V
  take_mutex w i (some (locking c)) none = record w {
    threads = set w.threads i (inside c (finding c));
    owner = some i;
  }
  take_mutex w i _ _ = w

  -- where a call goes on behind `map_.find (key)`
  unfoldable pub found : Call K V → Option ℕ → Point K V
  found (get_of key) none = returning none
  found (get_of key) (some it) = moving it (some it)
  found (put_of key value) none = evicting key value
  found (put_of key value) (some it) = setting it value

module _ {K V : Type 0} (dec : Discrete K) where
  -- the key of the last entry leaves the map
  unfoldable pub evict : Cache K V → K → V → Option (Node K V) → Cache K V × Point K V
  unfolding erase
  evict c key value none = (c, pushing key value)
  evict c key value (some n) = (record c { map = erase dec n.key c.map }, popping key value)

  -- One access of a call.
  unfoldable pub advance : Cache K V → Point K V → Cache K V × Point K V
  unfolding find found evict assign splice_front set_value back pop_back
  advance c (finding (get_of key)) = (c, found (get_of key) (find dec key c.map))
  advance c (finding (put_of key value)) = (c, found (put_of key value) (find dec key c.map))
  advance c (setting it value) = (record c { list = set_value it value c.list }, moving it none)
  advance c (moving it out) = (record c { list = splice_front it c.list }, returning out)
  advance c (evicting key value) =
      if leb c.capacity (length c.list)
      then evict c key value (back c.list)
      else (c, pushing key value)
  advance c (popping key value) = (record c { list = pop_back c.list }, pushing key value)
  advance c (pushing key value) = (
    record c {
      list = record { id = c.fresh; key = key; value = value } ∷ c.list;
      fresh = c.fresh + 1;
    },
    mapping key c.fresh,
  )
  advance c (mapping key it) = (record c { map = assign dec key it c.map }, returning none)
  advance c (returning out) = (c, returning out)

  -- the next step of a thread that stands at a point
  unfoldable pub work_at : World K V → ℕ → Call K V → Point K V → World K V
  unfolding advance
  work_at w i c (returning out) = record w {
    owner = none;
    threads = set w.threads i outside;
    finished = w.finished ++ c ∷ [];
    results = w.results ++ out ∷ [];
  }
  work_at w i c p =
      let (cache, p') = advance w.cache p in
      record w { cache = cache; threads = set w.threads i (inside c p') }

  unfoldable pub work : World K V → ℕ → Option (Thread K V) → World K V
  unfolding work_at
  work w i (some (inside c p)) = work_at w i c p
  work w i _ = w

  unfoldable pub step : World K V → Event K V → World K V
  unfolding begin take_mutex work
  step w (calls i c) = begin w i c (get_elem? w.threads i)
  step w (locks i) = take_mutex w i (get_elem? w.threads i) w.owner
  step w (works i) = work w i (get_elem? w.threads i)

  unfoldable pub run : World K V → List (Event K V) → World K V
  unfolding step
  run w [] = w
  run w (e ∷ es) = run (step w e) es
