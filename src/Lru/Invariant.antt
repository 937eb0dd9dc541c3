-- ===== src/Lru/Invariant.antt =====
-- The invariant of null/lru_cache.h under its operations.
use mathlib.Core.Option
use cc_snippets.Prelude.{ℕ, ◌<◌, ◌≤◌, ◌≡◌, List, [], ◌∷◌, none, some, ite, length, arith}
use cc_snippets.Lru.{Node, Cache, init, find, erase, assign, drop_back, insert_front, unlink, back}
use cc_snippets.Lru.Nodes.{
  Below, Below-Unused, Below-suc, Below-unlink, Below-node_of, Absent-of_node_of, Distinct, node_of,
  node_at-node_of, node_of-Unlinked,
}
use cc_snippets.Lru.Back.{Below-pop_back, length-pop_back-le, Distinct-pop_back, node_of-pop_back}

module _ {K : Type 0} (dec : Discrete K) where
  find-erase :
      (k q : K) (m : List (K × ℕ)) → find dec q (erase dec k m) ≡ ite (dec k q) none (find dec q m)
  unfolding find erase
  find-erase k q [] = ground arith
  find-erase k q (e ∷ m) = ground (arith, find-erase k q m)

  find-assign :
      (k q : K) (p : ℕ) (m : List (K × ℕ))
      → find dec q (assign dec k p m) ≡ ite (dec k q) (some p) (find dec q m)
  unfolding find assign
  find-assign k q p m = ground (arith, find-erase k q m)

module _ {K V : Type 0} (dec : Discrete K) where
  -- The list has no address and no key twice, and at most `capacity` entries; the map leads each
  -- key to its entry's node, and no other.
  pub record IsValid (c : Cache K V) : Type 0 where
    pub positive : 0 < c.capacity
    pub bounded : length c.list ≤ c.capacity
    pub below : Below c.fresh c.list
    pub distinct : Distinct dec c.list
    pub agrees : (q : K) → find dec q c.map ≡ Option.map (λ n. n.id) (node_of dec q c.list)

  pub init-IsValid : (capacity : ℕ) (c : Cache K V) → init capacity ≡ some c → IsValid c
  unfolding init find node_of
  init-IsValid capacity c e = ground arith

  -- A hit of get or of put: the node of the key goes to the front, its value set to `v`.
  pub hit-IsValid :
      (c : Cache K V) (k : K) (n : Node K V) (v : V)
      → IsValid c
      → node_of dec k c.list ≡ some n
      → IsValid (record c { list = record n { value = v } ∷ unlink n.id c.list })
  unfolding node_of
  hit-IsValid c k n v i e =
      let u = node_of-Unlinked dec k c.list n i.distinct e in
      record {
        positive = i.positive;
        bounded = omega (arith, u.size, i.bounded);
        below = (
          Below-node_of dec c.fresh k c.list n i.below e,
          Below-unlink c.fresh n.id c.list i.below,
        );
        distinct = (u.unused, u.absent, u.rest);
        agrees = λ q.
            rw (i.agrees q, u.others q)
              (ground (arith, node_at-node_of dec k c.list n i.distinct e));
      }

  pub drop_back-IsValid :
      (c : Cache K V) (b : Node K V)
      → IsValid c
      → back c.list ≡ some b
      → IsValid (drop_back dec c (some b))
  unfolding drop_back
  drop_back-IsValid c b i e = record {
    positive = i.positive;
    bounded = length-pop_back-le c.list i.bounded;
    below = Below-pop_back c.fresh c.list i.below;
    distinct = Distinct-pop_back dec c.list i.distinct;
    agrees = λ q.
        rw (find-erase dec b.key q c.map, i.agrees q, node_of-pop_back dec q c.list b i.distinct e)
          (ground arith);
  }

  pub insert_front-IsValid :
      (c : Cache K V) (k : K) (v : V)
      → IsValid c
      → length c.list < c.capacity
      → node_of dec k c.list ≡ none
      → IsValid (insert_front dec c k v)
  unfolding insert_front node_of
  insert_front-IsValid c k v i lt e = record {
    positive = i.positive;
    bounded = lt;
    below = (omega arith, Below-suc c.fresh c.list i.below);
    distinct = (Below-Unused c.fresh c.list i.below, Absent-of_node_of dec k c.list e, i.distinct);
    agrees = λ q. rw (find-assign dec k q c.fresh c.map, i.agrees q) (ground arith);
  }
