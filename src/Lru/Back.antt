-- ===== src/Lru/Back.antt =====
-- The removal at the back of a list of nodes, by which null/lru_cache.h makes room.
use cc_snippets.Prelude.{
  ℕ, suc, ◌≤◌, ◌≡◌, ◌≢◌, refl, ap, List, [], ◌∷◌, none, some, ite, length, arith, take,
}
use cc_snippets.Lru.{Node, back, pop_back}
use cc_snippets.Lru.Nodes.{Unused, Below, Absent, Distinct, node_of, entries}

module _ {K V : Type 0} where
  pub back-cons : (n : Node K V) (l : List (Node K V)) → (b : Node K V) × (back (n ∷ l) ≡ some b)
  unfolding back
  back-cons n [] = (n, refl)
  back-cons n (m ∷ l) = back-cons m l

  pub Below-pop_back : (p : ℕ) (l : List (Node K V)) → Below p l → Below p (pop_back l)
  unfolding pop_back
  Below-pop_back p [] b = tt
  Below-pop_back p (n ∷ []) b = tt
  Below-pop_back p (n ∷ m ∷ l) b = (b.0, Below-pop_back p (m ∷ l) b.1)

  Unused-pop_back : (p : ℕ) (l : List (Node K V)) → Unused p l → Unused p (pop_back l)
  unfolding pop_back
  Unused-pop_back p [] b = tt
  Unused-pop_back p (n ∷ []) b = tt
  Unused-pop_back p (n ∷ m ∷ l) b = (b.0, Unused-pop_back p (m ∷ l) b.1)

  pub length-pop_back : (n : Node K V) (l : List (Node K V)) → length (pop_back (n ∷ l)) ≡ length l
  unfolding pop_back
  length-pop_back n [] = refl
  length-pop_back n (m ∷ l) = ap suc (length-pop_back m l)

  pub length-pop_back-le : {b : ℕ} (l : List (Node K V)) → length l ≤ b → length (pop_back l) ≤ b
  unfolding pop_back
  length-pop_back-le [] h = h
  length-pop_back-le (n ∷ l) h = omega (arith, length-pop_back n l)

  pub entries-pop_back :
      (n : Node K V) (l : List (Node K V))
      → entries (pop_back (n ∷ l)) ≡ take (length l) (entries (n ∷ l))
  unfolding pop_back entries
  entries-pop_back n [] = refl
  entries-pop_back n (m ∷ l) = ap (◌∷◌ (n.key, n.value)) (entries-pop_back m l)

module _ {K V : Type 0} (dec : Discrete K) where
  Absent-pop_back : (k : K) (l : List (Node K V)) → Absent dec k l → Absent dec k (pop_back l)
  unfolding pop_back
  Absent-pop_back k [] a = tt
  Absent-pop_back k (n ∷ []) a = tt
  Absent-pop_back k (n ∷ m ∷ l) a = (a.0, Absent-pop_back k (m ∷ l) a.1)

  Absent-back :
      (k : K) (l : List (Node K V)) (b : Node K V) → Absent dec k l → back l ≡ some b → b.key ≢ k
  unfolding back
  Absent-back k [] b a e = cc
  Absent-back k (n ∷ []) b a e = ground arith
  Absent-back k (n ∷ m ∷ l) b a e = Absent-back k (m ∷ l) b a.1 e

  pub Distinct-pop_back : (l : List (Node K V)) → Distinct dec l → Distinct dec (pop_back l)
  unfolding pop_back
  Distinct-pop_back [] d = tt
  Distinct-pop_back (n ∷ []) d = tt
  Distinct-pop_back (n ∷ m ∷ l) d = (
    Unused-pop_back n.id (m ∷ l) d.0,
    Absent-pop_back n.key (m ∷ l) d.1,
    Distinct-pop_back (m ∷ l) d.2,
  )

  -- Only the last entry's key is lost.
  pub node_of-pop_back :
      (q : K) (l : List (Node K V)) (b : Node K V)
      → Distinct dec l
      → back l ≡ some b
      → node_of dec q (pop_back l) ≡ ite (dec b.key q) none (node_of dec q l)
  unfolding node_of pop_back back
  node_of-pop_back q [] b d e = cc
  node_of-pop_back q (n ∷ []) b d e = ground arith
  node_of-pop_back q (n ∷ m ∷ l) b d e =
      let ne = Absent-back n.key (m ∷ l) b d.1 e in
      ground (arith, node_of-pop_back q (m ∷ l) b d.2 e)
