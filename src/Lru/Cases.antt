-- ===== src/Lru/Cases.antt =====
-- What get and put of null/lru_cache.h do on each of their branches, on a valid cache.
use mathlib.Core.Option
use cc_snippets.Prelude.{
  ◌<◌, ◌≤◌, ◌≡◌, refl, ap, ◌∙◌, List, [], ◌∷◌, none, some, length, arith, Option-cases, Bool-cases,
  inl, inr, leb, true, false,
}
use cc_snippets.Lru.{
  Node, Cache, find, get, drop_back, make_room, insert_front, put, unlink, pop_back, back,
}
use cc_snippets.Lru.Nodes.{node_of, splice_front-node_of, splice_front-set_value}
use cc_snippets.Lru.Back.{back-cons, length-pop_back, node_of-pop_back}
use cc_snippets.Lru.Invariant.{IsValid, hit-IsValid, drop_back-IsValid, insert_front-IsValid}

module _ {K V : Type 0} (dec : Discrete K) (c : Cache K V) (k : K) (v : IsValid dec c) where
  find_hit : (n : Node K V) → node_of dec k c.list ≡ some n → find dec k c.map ≡ some n.id
  find_hit n e = v.agrees k ∙ ap (Option.map (λ m. m.id)) e

  find_miss : node_of dec k c.list ≡ none → find dec k c.map ≡ none
  find_miss e = v.agrees k ∙ ap (Option.map (λ m. m.id)) e

  pub get_hit :
      (n : Node K V)
      → node_of dec k c.list ≡ some n
      → get dec c k ≡ (record c { list = n ∷ unlink n.id c.list }, some n.id)
  unfolding get
  get_hit n e = rw (find_hit n e, get, splice_front-node_of dec k c.list n v.distinct e)

  pub get_miss : node_of dec k c.list ≡ none → get dec c k ≡ (c, none)
  unfolding get
  get_miss e = rw (find_miss e, get)

  pub put_hit :
      (n : Node K V) (x : V)
      → node_of dec k c.list ≡ some n
      → put dec c k x ≡ record c { list = record n { value = x } ∷ unlink n.id c.list }
  unfolding put
  put_hit n x e = rw (find_hit n e, put, splice_front-set_value dec k x c.list n v.distinct e)

  pub put_room :
      (x : V)
      → node_of dec k c.list ≡ none
      → length c.list < c.capacity
      → put dec c k x ≡ insert_front dec c k x
  unfolding put make_room
  put_room x e lt =
      let room : leb c.capacity (length c.list) ≡ false = ground arith in
      rw (find_miss e, put, room)

  pub put_full :
      (x : V) (b : Node K V)
      → node_of dec k c.list ≡ none
      → c.capacity ≤ length c.list
      → back c.list ≡ some b
      → put dec c k x ≡ insert_front dec (drop_back dec c (some b)) k x
  unfolding put make_room
  put_full x b e le last =
      let full : leb c.capacity (length c.list) ≡ true = ground arith in
      rw (find_miss e, put, full, last)

  last :
      c.capacity ≤ length c.list
      → (b : Node K V) × (back c.list ≡ some b) × (length (pop_back c.list) < c.capacity)
  last le = go c.list refl
    where
      go :
          (l : List (Node K V))
          → c.list ≡ l
          → (b : Node K V) × (back c.list ≡ some b) × (length (pop_back c.list) < c.capacity)
      go [] e = absurd (omega (arith, ap length e, v.positive))
      go (n ∷ l) e =
          let p = back-cons n l in
          (p.0, rw e p.1, rw e (omega (arith, length-pop_back n l, ap length e, v.bounded)))

  -- Every branch of put at once: a hit, a new entry with room, and a new entry in a full list.
  pub data PutCase (x : V) : Type 0 where
    hit : (n : Node K V) → node_of dec k c.list ≡ some n → PutCase x
    room : node_of dec k c.list ≡ none → length c.list < c.capacity → PutCase x
    full :
        (b : Node K V)
        → node_of dec k c.list ≡ none
        → c.capacity ≤ length c.list
        → back c.list ≡ some b
        → length (pop_back c.list) < c.capacity
        → PutCase x

  pub put_case : (x : V) → PutCase x
  put_case x = elim (Option-cases (node_of dec k c.list)) [
    | inl e ↦ elim (Bool-cases (leb c.capacity (length c.list))) [
      | inl le ↦ let p = last (ground arith) in full p.0 e (ground arith) p.1 p.2
      | inr lt ↦ room e (ground arith)
    ]
    | inr (n, e) ↦ hit n e
  ]

  pub get-IsValid : IsValid dec (get dec c k).0
  get-IsValid = elim (Option-cases (node_of dec k c.list)) [
    | inl e ↦ rw (get_miss e) v
    | inr (n, e) ↦ rw (get_hit n e) (hit-IsValid dec c k n n.value v e)
  ]

  pub put-IsValid : (x : V) → IsValid dec (put dec c k x)
  put-IsValid x = elim (put_case x) [
    | hit n e ↦ rw (put_hit n x e) (hit-IsValid dec c k n x v e)
    | room e lt ↦ rw (put_room x e lt) (insert_front-IsValid dec c k x v lt e)
    | full b e le f lt ↦ rw (put_full x b e le f) (
        insert_front-IsValid dec (drop_back dec c (some b)) k x (drop_back-IsValid dec c b v f)
          (unfold drop_back in lt)
          (unfold drop_back in
            (rw (node_of-pop_back dec k c.list b v.distinct f, e) (ground arith))))
  ]
