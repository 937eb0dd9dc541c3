-- ===== src/Lru.antt =====
-- null/lru_cache.h: a list of entries, the most recent first, and a map from keys to list
-- iterators. A node of std::list keeps its address while it is spliced, so an iterator, and the
-- pointer that get returns, is the address `id` of a node.
pub mod Nodes
pub mod Back
pub mod Invariant
pub mod Cases
pub mod Refine
pub mod Pointers
mod Tests
use mathlib.Core.List.{map as map_list}
use cc_snippets.Prelude.{
  ℕ, ◌+◌, List, [], ◌∷◌, Option, none, some, ite, ◌==◌, leb, if◌then◌else◌, length,
}

-- a node of list_: `value_type`, a pair of a key and a value, at its address
pub record Node (K V : Type 0) : Type 0 where
  pub id : ℕ
  pub key : K
  pub value : V

-- std::list: the nodes by address, for iterators
module _ {K V : Type 0} where
  -- what an iterator points to
  unfoldable pub node_at : ℕ → List (Node K V) → Option (Node K V)
  node_at p [] = none
  node_at p (n ∷ l) = if n.id == p then some n else node_at p l

  unfoldable pub unlink : ℕ → List (Node K V) → List (Node K V)
  unlink p [] = []
  unlink p (n ∷ l) = if n.id == p then l else n ∷ unlink p l

  -- `list_.splice (list_.begin (), list_, it)`
  unfoldable pub splice_front : ℕ → List (Node K V) → List (Node K V)
  unfolding node_at unlink
  splice_front p l = elim (node_at p l) [ none ↦ l | some n ↦ n ∷ unlink p l ]

  -- `it->second = value`
  unfoldable pub set_value : ℕ → V → List (Node K V) → List (Node K V)
  set_value p v [] = []
  set_value p v (n ∷ l) = if n.id == p then record n { value = v } ∷ l else n ∷ set_value p v l

  unfoldable pub back : List (Node K V) → Option (Node K V)
  back [] = none
  back (n ∷ []) = some n
  back (n ∷ m ∷ l) = back (m ∷ l)

  unfoldable pub pop_back : List (Node K V) → List (Node K V)
  pop_back [] = []
  pop_back (n ∷ []) = []
  pop_back (n ∷ m ∷ l) = n ∷ pop_back (m ∷ l)

-- std::unordered_map, as an association list
module _ {K : Type 0} (dec : Discrete K) where
  unfoldable pub find : K → List (K × ℕ) → Option ℕ
  find key [] = none
  find key ((k, p) ∷ m) = ite (dec k key) (some p) (find key m)

  unfoldable pub erase : K → List (K × ℕ) → List (K × ℕ)
  erase key [] = []
  erase key ((k, p) ∷ m) = ite (dec k key) (erase key m) ((k, p) ∷ erase key m)

  -- `map_[key] = it`
  unfoldable pub assign : K → ℕ → List (K × ℕ) → List (K × ℕ)
  unfolding erase
  assign key p m = (key, p) ∷ erase key m

-- `fresh` is the address that the next node gets.
pub record Cache (K V : Type 0) : Type 0 where
  pub capacity : ℕ
  pub list : List (Node K V)
  pub map : List (K × ℕ)
  pub fresh : ℕ

-- the constructor; `none` is the std::invalid_argument that it throws
unfoldable pub init : {K V : Type 0} → ℕ → Option (Cache K V)
init capacity =
    if capacity == 0
    then none
    else some (record { capacity = capacity; list = []; map = []; fresh = 0 })

module _ {K V : Type 0} (dec : Discrete K) where
  -- get: the pointer that it returns, `none` for nullptr, leads to the value of a node
  unfoldable pub get : Cache K V → K → Cache K V × Option ℕ
  unfolding find splice_front
  get c key = elim (find dec key c.map) [
    | none ↦ (c, none)
    | some it ↦ (record c { list = splice_front it c.list }, some it)
  ]

  -- the entry that goes when the list is full
  unfoldable pub drop_back : Cache K V → Option (Node K V) → Cache K V
  unfolding erase pop_back
  drop_back c none = c
  drop_back c (some n) = record c { map = erase dec n.key c.map; list = pop_back c.list }

  unfoldable pub make_room : Cache K V → Cache K V
  unfolding drop_back back
  make_room c = if leb c.capacity (length c.list) then drop_back c (back c.list) else c

  -- `push_front` and the new key's iterator
  unfoldable pub insert_front : Cache K V → K → V → Cache K V
  unfolding assign
  insert_front c key value = record c {
    list = record { id = c.fresh; key = key; value = value } ∷ c.list;
    map = assign dec key c.fresh c.map;
    fresh = c.fresh + 1;
  }

  unfoldable pub put : Cache K V → K → V → Cache K V
  unfolding find splice_front set_value make_room insert_front
  put c key value = elim (find dec key c.map) [
    | some it ↦ record c { list = splice_front it (set_value it value c.list) }
    | none ↦ insert_front (make_room c) key value
  ]
