-- ===== src/Lru/Nodes.antt =====
-- Lists of nodes: nodes by key and by address, and the two changes that null/lru_cache.h makes,
-- a splice to the front and a removal at the back.
use cc_snippets.Prelude.{
  ℕ, suc, ◌+◌, ◌<◌, ◌≡◌, ◌≢◌, refl, sym, ap, ◌∙◌, List, [], ◌∷◌, Option, none, some, ite, ◌==◌,
  length, arith, inl, inr, Bool-cases, true, false,
}
use cc_snippets.Lru.{Node, node_at, unlink, splice_front, set_value}

module _ {K V : Type 0} where
  -- no node of the list has the address
  abbrev pub Unused : ℕ → List (Node K V) → Type 0
  Unused p [] = Unit
  Unused p (n ∷ l) = (n.id ≢ p) × Unused p l

  -- every node's address is below `bound`
  abbrev pub Below : ℕ → List (Node K V) → Type 0
  Below bound [] = Unit
  Below bound (n ∷ l) = (n.id < bound) × Below bound l

  pub Below-Unused : (p : ℕ) (l : List (Node K V)) → Below p l → Unused p l
  Below-Unused p [] b = tt
  Below-Unused p (n ∷ l) b = (omega arith, Below-Unused p l b.1)

  pub Below-suc : (p : ℕ) (l : List (Node K V)) → Below p l → Below (p + 1) l
  Below-suc p [] b = tt
  Below-suc p (n ∷ l) b = (omega arith, Below-suc p l b.1)

  unfoldable pub entries : List (Node K V) → List (K × V)
  entries [] = []
  entries (n ∷ l) = (n.key, n.value) ∷ entries l

  pub length-entries : (l : List (Node K V)) → length (entries l) ≡ length l
  unfolding entries
  length-entries [] = refl
  length-entries (n ∷ l) = ap suc (length-entries l)

  pub Below-unlink : (p q : ℕ) (l : List (Node K V)) → Below p l → Below p (unlink q l)
  unfolding unlink
  Below-unlink p q [] u = tt
  Below-unlink p q (n ∷ l) u = elim (Bool-cases (n.id == q)) [
    | inl e ↦ rw e u.1
    | inr e ↦ rw e (u.0, Below-unlink p q l u.1)
  ]

module _ {K V : Type 0} (dec : Discrete K) where
  -- the entries, less those with the key
  unfoldable pub remove : K → List (K × V) → List (K × V)
  remove k [] = []
  remove k (e ∷ l) = ite (dec e.0 k) (remove k l) (e ∷ remove k l)

  -- the first node with the key
  unfoldable pub node_of : K → List (Node K V) → Option (Node K V)
  node_of k [] = none
  node_of k (n ∷ l) = ite (dec n.key k) (some n) (node_of k l)

  -- no node has the key
  abbrev pub Absent : K → List (Node K V) → Type 0
  Absent k [] = Unit
  Absent k (n ∷ l) = (n.key ≢ k) × Absent k l

  -- no two nodes share an address or a key
  abbrev pub Distinct : List (Node K V) → Type 0
  Distinct [] = Unit
  Distinct (n ∷ l) = Unused n.id l × Absent n.key l × Distinct l

  pub node_of-Absent : (k : K) (l : List (Node K V)) → Absent k l → node_of k l ≡ none
  unfolding node_of
  node_of-Absent k [] a = refl
  node_of-Absent k (n ∷ l) a = ground (arith, node_of-Absent k l)

  pub Absent-of_node_of : (k : K) (l : List (Node K V)) → node_of k l ≡ none → Absent k l
  unfolding node_of
  Absent-of_node_of k [] e = tt
  Absent-of_node_of k (n ∷ l) e = elim (dec n.key k) [
    | yes p ↦ absurd (ground arith)
    | no p ↦ (p, Absent-of_node_of k l (ground arith))
  ]

  node_of-Unused :
      (k : K) (p : ℕ) (l : List (Node K V)) (n : Node K V)
      → Unused p l
      → node_of k l ≡ some n
      → p ≢ n.id
  unfolding node_of
  node_of-Unused k p [] n u e = cc
  node_of-Unused k p (m ∷ l) n u e = elim (dec m.key k) [
    | yes q ↦ ground arith
    | no q ↦ node_of-Unused k p l n u.1 (ground arith)
  ]

  node_of-Absent-ne :
      (k j : K) (l : List (Node K V)) (n : Node K V) → Absent j l → node_of k l ≡ some n → j ≢ k
  unfolding node_of
  node_of-Absent-ne k j [] n u e = cc
  node_of-Absent-ne k j (m ∷ l) n u e = elim (dec m.key k) [
    | yes q ↦ λ f. u.0 (q ∙ sym f)
    | no q ↦ node_of-Absent-ne k j l n u.1 (ground arith)
  ]

  pub Below-node_of :
      (p : ℕ) (k : K) (l : List (Node K V)) (n : Node K V)
      → Below p l
      → node_of k l ≡ some n
      → n.id < p
  unfolding node_of
  Below-node_of p k [] n b e = cc
  Below-node_of p k (m ∷ l) n b e = elim (dec m.key k) [
    | yes q ↦ ground arith
    | no q ↦ Below-node_of p k l n b.1 (ground arith)
  ]

  -- the node that a key leads to is the node at its own address
  pub node_at-node_of :
      (k : K) (l : List (Node K V)) (n : Node K V)
      → Distinct l
      → node_of k l ≡ some n
      → (node_at n.id l ≡ some n) × (n.key ≡ k)
  unfolding node_of node_at
  node_at-node_of k [] n d e = cc
  node_at-node_of k (m ∷ l) n d e = elim (dec m.key k) [
    | yes q ↦ ground arith
    | no q ↦ ground (arith, node_at-node_of k l n d.2, node_of-Unused k m.id l n d.0)
  ]

  Unused-unlink : (p q : ℕ) (l : List (Node K V)) → Unused p l → Unused p (unlink q l)
  unfolding unlink
  Unused-unlink p q [] u = tt
  Unused-unlink p q (n ∷ l) u = elim (Bool-cases (n.id == q)) [
    | inl e ↦ rw e u.1
    | inr e ↦ rw e (u.0, Unused-unlink p q l u.1)
  ]

  Absent-unlink : (k : K) (q : ℕ) (l : List (Node K V)) → Absent k l → Absent k (unlink q l)
  unfolding unlink
  Absent-unlink p q [] u = tt
  Absent-unlink p q (n ∷ l) u = elim (Bool-cases (n.id == q)) [
    | inl e ↦ rw e u.1
    | inr e ↦ rw e (u.0, Absent-unlink p q l u.1)
  ]

  Distinct-unlink : (q : ℕ) (l : List (Node K V)) → Distinct l → Distinct (unlink q l)
  unfolding unlink
  Distinct-unlink q [] d = tt
  Distinct-unlink q (n ∷ l) d = elim (Bool-cases (n.id == q)) [
    | inl e ↦ rw e d.2
    | inr e ↦
        rw e (Unused-unlink n.id q l d.0, Absent-unlink n.key q l d.1, Distinct-unlink q l d.2)
  ]

  -- what is left when the node of the key `k` is taken out
  pub record Unlinked (k : K) (l : List (Node K V)) (n : Node K V) : Type 0 where
    pub rest : Distinct (unlink n.id l)
    pub unused : Unused n.id (unlink n.id l)
    pub absent : Absent n.key (unlink n.id l)
    pub size : length (unlink n.id l) + 1 ≡ length l
    pub others : (q : K) → node_of q (unlink n.id l) ≡ ite (dec k q) none (node_of q l)

  unlink-here :
      (k : K) (m : Node K V) (l : List (Node K V))
      → Distinct (m ∷ l)
      → m.key ≡ k
      → Unlinked k (m ∷ l) m
  unfolding unlink node_of
  unlink-here k m l d e =
      let same : (m.id == m.id) ≡ true = ground arith in
      record {
        rest = rw same d.2;
        unused = rw same d.0;
        absent = rw same d.1;
        size = rw same (omega arith);
        others = λ q. rw same (ground (arith, node_of-Absent m.key l d.1));
      }

  unlink-there :
      (k : K) (m : Node K V) (l : List (Node K V)) (n : Node K V)
      → Distinct (m ∷ l)
      → node_of k l ≡ some n
      → n.key ≡ k
      → Unlinked k l n
      → Unlinked k (m ∷ l) n
  unfolding unlink node_of
  unlink-there k m l n d e f u =
      let ne = node_of-Unused k m.id l n d.0 e in
      let ne_key = node_of-Absent-ne k m.key l n d.1 e in
      let diff : (m.id == n.id) ≡ false = ground arith in
      record {
        rest = rw diff (Unused-unlink m.id n.id l d.0, Absent-unlink m.key n.id l d.1, u.rest);
        unused = rw diff (ne, u.unused);
        absent = rw diff ((λ g. ne_key (g ∙ f)), u.absent);
        size = rw diff (omega (arith, u.size));
        others = λ q. rw diff (ground (arith, u.others q));
      }

  pub node_of-Unlinked :
      (k : K) (l : List (Node K V)) (n : Node K V)
      → Distinct l
      → node_of k l ≡ some n
      → Unlinked k l n
  unfolding node_of
  node_of-Unlinked k [] n d e = cc
  node_of-Unlinked k (m ∷ l) n d e = elim (dec m.key k) [
    | yes q ↦ let f : m ≡ n = ground arith in rw (← f) (unlink-here k m l d q)
    | no q ↦
        let g : node_of k l ≡ some n = ground arith in
        unlink-there k m l n d g (node_at-node_of k l n d.2 g).1 (node_of-Unlinked k l n d.2 g)
  ]

  pub remove-Absent : (k : K) (l : List (Node K V)) → Absent k l → remove k (entries l) ≡ entries l
  unfolding remove entries
  remove-Absent k [] a = refl
  remove-Absent k (n ∷ l) a = ground (arith, remove-Absent k l a.1)

  pub entries-unlink :
      (k : K) (l : List (Node K V)) (n : Node K V)
      → Distinct l
      → node_of k l ≡ some n
      → entries (unlink n.id l) ≡ remove k (entries l)
  unfolding entries unlink remove node_of
  entries-unlink k [] n d e = cc
  entries-unlink k (m ∷ l) n d e = elim (dec m.key k) [
    | yes q ↦ ground (arith, remove-Absent m.key l d.1)
    | no q ↦ ground (arith, node_of-Unused k m.id l n d.0, entries-unlink k l n d.2)
  ]

  node_at-set_value :
      (p : ℕ) (v : V) (l : List (Node K V)) (n : Node K V)
      → node_at p l ≡ some n
      → (node_at p (set_value p v l) ≡ some (record n { value = v }))
        × (unlink p (set_value p v l) ≡ unlink p l)
  unfolding node_at set_value unlink
  node_at-set_value p v [] n e = cc
  node_at-set_value p v (m ∷ l) n e = ground (arith, node_at-set_value p v l n)

  -- A hit: the entry goes to the front, with the value that get leaves or that put writes.
  pub splice_front-node_of :
      (k : K) (l : List (Node K V)) (n : Node K V)
      → Distinct l
      → node_of k l ≡ some n
      → splice_front n.id l ≡ n ∷ unlink n.id l
  unfolding splice_front
  splice_front-node_of k l n d e = rw ((node_at-node_of k l n d e).0, splice_front)

  pub splice_front-set_value :
      (k : K) (v : V) (l : List (Node K V)) (n : Node K V)
      → Distinct l
      → node_of k l ≡ some n
      → splice_front n.id (set_value n.id v l) ≡ record n { value = v } ∷ unlink n.id l
  unfolding splice_front
  splice_front-set_value k v l n d e =
      let s = node_at-set_value n.id v l n (node_at-node_of k l n d e).0 in
      rw (s.0, splice_front) (rw s.1)
