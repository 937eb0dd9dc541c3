-- ===== src/Lru/Refine.antt =====
-- null/lru_cache.h against a list of the most recent entries, which has no nodes and no map.
use mathlib.Core.Option
use cc_snippets.Prelude.{
  ℕ, zero, suc, ◌<◌, ◌≡◌, refl, sym, ap, ◌∙◌, List, [], ◌∷◌, Option, none, some, ite, length, arith,
  Option-cases, inl, inr, take, take_of_length-le,
}
use cc_snippets.Lru.{
  Node, Cache, init, get, drop_back, insert_front, put, node_at, unlink, pop_back,
}
use cc_snippets.Lru.Nodes.{
  entries, length-entries, remove, remove-Absent, entries-unlink, Absent-of_node_of, node_of,
  node_of-Unlinked, node_at-node_of,
}
use cc_snippets.Lru.Back.{entries-pop_back}
use cc_snippets.Lru.Invariant.{IsValid, init-IsValid}
use cc_snippets.Lru.Cases.{
  get_hit, get_miss, put_hit, put_room, put_full, put_case, hit, room, full, get-IsValid,
  put-IsValid,
}

pub data Call (K V : Type 0) : Type 0 where
  get_of : K → Call K V
  put_of : K → V → Call K V

module _ {K V : Type 0} (dec : Discrete K) where
  -- The specification: entries, the most recent first.
  unfoldable pub lookup : K → List (K × V) → Option V
  lookup k [] = none
  lookup k (e ∷ l) = ite (dec e.0 k) (some e.1) (lookup k l)

  unfoldable pub recent : ℕ → List (K × V) → Call K V → List (K × V) × Option V
  unfolding lookup remove
  recent capacity l (get_of k) = elim (lookup k l) [
    | none ↦ (l, none)
    | some v ↦ ((k, v) ∷ remove dec k l, some v)
  ]
  recent capacity l (put_of k v) = (take capacity ((k, v) ∷ remove dec k l), none)

  unfoldable pub run_recent : ℕ → List (K × V) → List (Call K V) → List (Option V)
  unfolding recent
  run_recent capacity l [] = []
  run_recent capacity l (call ∷ cs) =
      let (l', out) = recent capacity l call in out ∷ run_recent capacity l' cs

  -- The program: what a caller reads through the pointer of get.
  unfoldable pub value_at : Cache K V → Option ℕ → Option V
  unfolding node_at
  value_at c none = none
  value_at c (some p) = Option.map (λ n. n.value) (node_at p c.list)

  unfoldable pub call_cache : Cache K V → Call K V → Cache K V × Option V
  unfolding get put value_at
  call_cache c (get_of k) = let (c', p) = get dec c k in (c', value_at c' p)
  call_cache c (put_of k v) = (put dec c k v, none)

  unfoldable pub run_cache : Cache K V → List (Call K V) → List (Option V)
  unfolding call_cache
  run_cache c [] = []
  run_cache c (call ∷ cs) = let (c', out) = call_cache c call in out ∷ run_cache c' cs

  entries-full :
      (capacity : ℕ) (e : K × V) (l : List (Node K V))
      → length l ≡ capacity
      → 0 < capacity
      → e ∷ entries (pop_back l) ≡ take capacity (e ∷ entries l)
  entries-full zero e l h pos = absurd (omega arith)
  entries-full (suc m) e [] h pos = absurd (omega arith)
  entries-full (suc m) e (n ∷ l) h pos =
      let h' : length l ≡ m = omega arith in
      ap (◌∷◌ e) (entries-pop_back n l ∙ ap (λ i. take i (entries (n ∷ l))) h')

  lookup-entries :
      (k : K) (l : List (Node K V))
      → lookup k (entries l) ≡ Option.map (λ n. n.value) (node_of dec k l)
  unfolding lookup entries node_of
  lookup-entries k [] = refl
  lookup-entries k (n ∷ l) = ground (arith, lookup-entries k l)

  get_refines :
      (c : Cache K V) (k : K)
      → IsValid dec c
      → let (c', p) = get dec c k in
        (entries c'.list, value_at c' p) ≡ recent c.capacity (entries c.list) (get_of k)
  unfolding recent value_at entries node_at
  get_refines c k v = elim (Option-cases (node_of dec k c.list)) [
    | inl e ↦ ground (arith, get_miss dec c k v e, lookup-entries k c.list)
    | inr (n, e) ↦ ground (
      arith,
      get_hit dec c k v n e,
      lookup-entries k c.list,
      entries-unlink dec k c.list n v.distinct e,
      node_at-node_of dec k c.list n v.distinct e,
    )
  ]

  put_refines :
      (c : Cache K V) (k : K) (x : V)
      → IsValid dec c
      → entries (put dec c k x).list ≡ take c.capacity ((k, x) ∷ remove dec k (entries c.list))
  unfolding entries insert_front drop_back
  put_refines c k x v = elim (put_case dec c k v x) [
    | hit n e ↦
        let u = node_of-Unlinked dec k c.list n v.distinct e in
        rw
          (
            put_hit dec c k v n x e,
            ← entries-unlink dec k c.list n v.distinct e,
            (node_at-node_of dec k c.list n v.distinct e).1,
          )
          (sym (
            take_of_length-le c.capacity _
              (omega (arith, u.size, v.bounded, length-entries (unlink n.id c.list)))))
    | room e lt ↦
        rw
          (put_room dec c k v x e lt, remove-Absent dec k c.list (Absent-of_node_of dec k c.list e))
          (sym (take_of_length-le c.capacity _ (omega (arith, v.bounded, length-entries c.list))))
    | full b e le f lt ↦
        rw
          (
            put_full dec c k v x b e le f,
            remove-Absent dec k c.list (Absent-of_node_of dec k c.list e),
          )
          (entries-full c.capacity (k, x) c.list (omega (arith, v.bounded)) v.positive)
  ]

  pub capacity-put :
      (c : Cache K V) (k : K) (x : V) → IsValid dec c → (put dec c k x).capacity ≡ c.capacity
  unfolding insert_front drop_back
  capacity-put c k x v = elim (put_case dec c k v x) [
    | hit n e ↦ rw (put_hit dec c k v n x e)
    | room e lt ↦ rw (put_room dec c k v x e lt)
    | full b e le f lt ↦ rw (put_full dec c k v x b e le f)
  ]

  pub capacity-get : (c : Cache K V) (k : K) → IsValid dec c → (get dec c k).0.capacity ≡ c.capacity
  capacity-get c k v = elim (Option-cases (node_of dec k c.list)) [
    | inl e ↦ rw (get_miss dec c k v e)
    | inr (n, e) ↦ rw (get_hit dec c k v n e)
  ]

  -- On a valid cache each call keeps the invariant and the capacity, leaves the entries that the
  -- specification leaves, and gives the value that the specification gives.
  call_cache_refines :
      (c : Cache K V) (call : Call K V)
      → IsValid dec c
      → let (c', out) = call_cache c call in
        IsValid dec c'
        × (c'.capacity ≡ c.capacity)
        × ((entries c'.list, out) ≡ recent c.capacity (entries c.list) call)
  unfolding call_cache recent
  call_cache_refines c (get_of k) v = (get-IsValid dec c k v, capacity-get c k v, get_refines c k v)
  call_cache_refines c (put_of k x) v =
      (put-IsValid dec c k v x, capacity-put c k x v, ap (λ l. (l, none)) (put_refines c k x v))

  run_refines :
      (c : Cache K V) (cs : List (Call K V))
      → IsValid dec c
      → run_cache c cs ≡ run_recent c.capacity (entries c.list) cs
  unfolding run_cache run_recent
  run_refines c [] v = refl
  run_refines c (call ∷ cs) v =
      let s = call_cache_refines c call v in
      rw (run_refines (call_cache c call).0 cs s.0, s.1, ← s.2)

  -- A cache that the constructor made gives, on every sequence of calls, the results of a list of
  -- the `capacity` most recent entries; a capacity that the constructor accepts is
  -- positive.
  pub run_cache-init :
      (capacity : ℕ) (cs : List (Call K V)) (c : Cache K V)
      → init capacity ≡ some c
      → (0 < capacity) × (run_cache c cs ≡ run_recent capacity [] cs)
  unfolding init entries
  run_cache-init capacity cs c e =
      let v = init-IsValid dec capacity c e in (ground arith, run_refines c cs v ∙ ground arith)
