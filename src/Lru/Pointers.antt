-- ===== src/Lru/Pointers.antt =====
-- How long a pointer that get of null/lru_cache.h returned leads to its node.
use cc_snippets.Prelude.{
  ℕ, zero, suc, ◌+◌, ◌<◌, ◌≤◌, ◌≡◌, ◌≢◌, refl, sym, ap, ◌∙◌, List, [], ◌∷◌, none, some, length,
  arith, Option-cases, Bool-cases, inl, inr, ◌⊎◌, ◌==◌, false, if◌then◌else◌,
}
use cc_snippets.Lru.{
  Node, Cache, get, drop_back, insert_front, put, node_at, unlink, pop_back, back,
}
use cc_snippets.Lru.Nodes.{Unused, Distinct, node_of, node_at-node_of, Below}
use cc_snippets.Lru.Invariant.{IsValid}
use cc_snippets.Lru.Cases.{
  get_hit, get_miss, put_hit, put_room, put_full, put_case, hit, room, full, get-IsValid,
  put-IsValid,
}
use cc_snippets.Lru.Refine.{Call, get_of, put_of, capacity-get, capacity-put}
use native.Mathlib.Nat.{add-zero, add-suc, suc-add}

module _ {K V : Type 0} where
  Unused-back :
      (q : ℕ) (l : List (Node K V)) (b : Node K V) → Unused q l → back l ≡ some b → b.id ≢ q
  unfolding back
  Unused-back q [] b u e = cc
  Unused-back q (n ∷ []) b u e = ground arith
  Unused-back q (n ∷ m ∷ l) b u e = Unused-back q (m ∷ l) b u.1 e

  Below-back : (p : ℕ) (l : List (Node K V)) (b : Node K V) → Below p l → back l ≡ some b → b.id < p
  unfolding back
  Below-back p [] b u e = cc
  Below-back p (n ∷ []) b u e = ground arith
  Below-back p (n ∷ m ∷ l) b u e = Below-back p (m ∷ l) b u.1 e

  Below-node_at :
      (p q : ℕ) (l : List (Node K V)) (n : Node K V) → Below p l → node_at q l ≡ some n → q < p
  unfolding node_at
  Below-node_at p q [] n b e = cc
  Below-node_at p q (m ∷ l) n b e = elim (Bool-cases (m.id == q)) [
    | inl h ↦ ground arith
    | inr h ↦ Below-node_at p q l n b.1 (ground arith)
  ]

module _ {K V : Type 0} (p : ℕ) (k : K) where
  -- Among the first `n` nodes is one at the address, with the key.
  abbrev pub Within : ℕ → List (Node K V) → Type 0
  Within zero l = ⊥
  Within (suc n) [] = ⊥
  Within (suc n) (m ∷ l) = ((m.id ≡ p) × (m.key ≡ k)) ⊎ Within n l

  Within-suc : (n : ℕ) (l : List (Node K V)) → Within n l → Within (suc n) l
  Within-suc zero l w = absurd w
  Within-suc (suc n) [] w = absurd w
  Within-suc (suc n) (m ∷ l) w = elim w [ inl h ↦ inl h | inr r ↦ inr (Within-suc n l r) ]

  Within-front :
      (n : ℕ) (q : ℕ) (l : List (Node K V)) (m m' : Node K V)
      → node_at q l ≡ some m
      → m'.id ≡ m.id
      → m'.key ≡ m.key
      → Within n l
      → Within (suc n) (m' ∷ unlink q l)
  unfolding node_at unlink
  Within-front zero q l m m' e i j w = absurd w
  Within-front (suc n) q [] m m' e i j w = absurd w
  Within-front (suc n) q (x ∷ l) m m' e i j w = elim (Bool-cases (x.id == q)) [
    | inl here ↦
        let f : x ≡ m = ground arith in
        rw here (elim w [
          | inl (a, b) ↦ inl (i ∙ ap (λ y. y.id) (sym f) ∙ a, j ∙ ap (λ y. y.key) (sym f) ∙ b)
          | inr r ↦ inr (Within-suc n l r)
        ])
    | inr there ↦ rw there (elim w [
      | inl h ↦ inr (inl h)
      | inr r ↦ elim (Within-front n q l m m' (ground arith) i j r) [
        | inl h ↦ inl h
        | inr h ↦ inr (inr h)
      ]
    ])
  ]

  Within-pop_back :
      (n : ℕ) (l : List (Node K V)) → n < length l → Within n l → Within n (pop_back l)
  unfolding pop_back
  Within-pop_back zero l lt w = w
  Within-pop_back (suc n) [] lt w = w
  Within-pop_back (suc n) (x ∷ []) lt w = absurd (omega arith)
  Within-pop_back (suc n) (x ∷ y ∷ l) lt w = elim w [
    | inl h ↦ inl h
    | inr r ↦ inr (Within-pop_back n (y ∷ l) (omega arith) r)
  ]

  Within-ne-Unused : (n : ℕ) (q : ℕ) (l : List (Node K V)) → Unused q l → Within n l → p ≢ q
  Within-ne-Unused zero q l u w = absurd w
  Within-ne-Unused (suc n) q [] u w = absurd w
  Within-ne-Unused (suc n) q (m ∷ l) u w = elim w [
    | inl h ↦ λ e. u.0 (h.0 ∙ e)
    | inr r ↦ Within-ne-Unused n q l u.1 r
  ]

  module _ (dec : Discrete K) where
    node_at-Within :
        (n : ℕ) (l : List (Node K V))
        → Distinct dec l
        → Within n l
        → (m : Node K V) × (node_at p l ≡ some m) × (m.key ≡ k)
    unfolding node_at
    node_at-Within zero l d w = absurd w
    node_at-Within (suc n) [] d w = absurd w
    node_at-Within (suc n) (m ∷ l) d w = elim w [
      | inl h ↦ (m, ground arith, h.1)
      | inr r ↦
          let ne = Within-ne-Unused n m.id l d.0 r in
          let (x, e, f) = node_at-Within n l d.2 r in
          let other : (m.id == p) ≡ false = ground arith in (x, rw other e, f)
    ]

    Within-put :
        (c : Cache K V) (j : K) (x : V) (n : ℕ)
        → IsValid dec c
        → n < c.capacity
        → Within n c.list
        → Within (suc n) (put dec c j x).list
    unfolding insert_front drop_back
    Within-put c j x n v lt w = elim (put_case dec c j v x) [
      | hit m e ↦ rw (put_hit dec c j v m x e) (
          Within-front n m.id c.list m (record m { value = x })
            (node_at-node_of dec j c.list m v.distinct e).0 refl refl w)
      | room e f ↦ rw (put_room dec c j v x e f) (inr w)
      | full b e le f g ↦
          rw (put_full dec c j v x b e le f) (inr (Within-pop_back n c.list (omega arith) w))
    ]

    Within-get :
        (c : Cache K V) (j : K) (n : ℕ)
        → IsValid dec c
        → Within n c.list
        → Within (suc n) (get dec c j).0.list
    Within-get c j n v w = elim (Option-cases (node_of dec j c.list)) [
      | inl e ↦ rw (get_miss dec c j v e) (Within-suc n c.list w)
      | inr (m, e) ↦ rw (get_hit dec c j v m e) (
          Within-front n m.id c.list m m (node_at-node_of dec j c.list m v.distinct e).0 refl refl
            w)
    ]

module _ {K V : Type 0} (dec : Discrete K) where
  -- the cache after a sequence of calls
  unfoldable pub after_calls : Cache K V → List (Call K V) → Cache K V
  after_calls c [] = c
  after_calls c (get_of k ∷ cs) = after_calls (get dec c k).0 cs
  after_calls c (put_of k x ∷ cs) = after_calls (put dec c k x) cs

  after_calls-Within :
      (p : ℕ) (k : K) (cs : List (Call K V)) (c : Cache K V) (n : ℕ)
      → IsValid dec c
      → n + length cs ≤ c.capacity
      → Within p k n c.list
      → IsValid dec (after_calls c cs) × Within p k (n + length cs) (after_calls c cs).list
  unfolding after_calls
  after_calls-Within p k [] c n v h w = (v, rw add-zero w)
  after_calls-Within p k (get_of j ∷ cs) c n v h w = rw add-suc (
      rw (← suc-add) (
        after_calls-Within p k cs (get dec c j).0 (suc n) (get-IsValid dec c j v)
          (rw (capacity-get dec c j v) (omega arith)) (Within-get p k dec c j n v w)))
  after_calls-Within p k (put_of j x ∷ cs) c n v h w = rw add-suc (
      rw (← suc-add) (
        after_calls-Within p k cs (put dec c j x) (suc n) (put-IsValid dec c j v x)
          (rw (capacity-put dec c j x v) (omega arith))
          (Within-put p k dec c j x n v (omega arith) w)))

  -- The pointer that get returned leads to a node of the key that was asked for as long as fewer
  -- than `capacity` calls of get and put follow, whatever they are.
  pub get-after_calls :
      (c : Cache K V) (k : K) (p : ℕ) (cs : List (Call K V))
      → IsValid dec c
      → (get dec c k).1 ≡ some p
      → length cs < c.capacity
      → (n : Node K V) × (node_at p (after_calls (get dec c k).0 cs).list ≡ some n) × (n.key ≡ k)
  get-after_calls c k p cs v e lt = elim (Option-cases (node_of dec k c.list)) [
    | inl miss ↦ absurd (cc (ap (λ r. r.1) (get_miss dec c k v miss)))
    | inr (n, found) ↦
        let h = get_hit dec c k v n found in
        let same : n.id ≡ p =
          (let s : some n.id ≡ some p = sym (ap (λ r. r.1) h) ∙ e in ground arith) in
        let first : Within p k 1 (get dec c k).0.list =
          rw h (inl (same, (node_at-node_of dec k c.list n v.distinct found).1)) in
        let (v', w) =
          after_calls-Within p k cs (get dec c k).0 1 (get-IsValid dec c k v)
            (rw (capacity-get dec c k v) (omega arith)) first in
        node_at-Within p k dec (1 + length cs) (after_calls (get dec c k).0 cs).list v'.distinct w
  ]

  node_at-pop_back :
      (q : ℕ) (l : List (Node K V)) (b : Node K V)
      → Distinct dec l
      → back l ≡ some b
      → node_at q (pop_back l) ≡ (if b.id == q then none else node_at q l)
  unfolding node_at pop_back back
  node_at-pop_back q [] b d e = cc
  node_at-pop_back q (n ∷ []) b d e = ground arith
  node_at-pop_back q (n ∷ m ∷ l) b d e =
      let ne = Unused-back n.id (m ∷ l) b d.0 e in
      ground (arith, node_at-pop_back q (m ∷ l) b d.2 e)

  -- When put stores a key that a full valid cache lacks, a pointer to a node of the cache is left
  -- dangling if the node is that of the least recent entry, and otherwise still leads to the same
  -- key and value.
  pub put_dangling :
      (c : Cache K V) (k : K) (x : V) (b : Node K V) (q : ℕ) (n : Node K V)
      → IsValid dec c
      → node_of dec k c.list ≡ none
      → c.capacity ≤ length c.list
      → back c.list ≡ some b
      → node_at q c.list ≡ some n
      → node_at q (put dec c k x).list ≡ (if b.id == q then none else some n)
  unfolding insert_front drop_back node_at
  put_dangling c k x b q n v e le last f =
      let h = put_full dec c k v x b e le last in
      rw h (
        ground (
          arith,
          node_at-pop_back q c.list b v.distinct last,
          Below-node_at c.fresh q c.list n v.below f,
        ))
