-- ===== src/ConcurrentLru/Alone.antt =====
-- A call of null/concurrent_lru_cache.h without other threads: its accesses together are the call of
-- null/lru_cache.h.
use cc_snippets.Prelude.{
  ℕ, ◌≡◌, refl, ap, List, [], ◌∷◌, ◌++◌, Option, none, some, Option-cases, Bool-cases, inl, inr,
  leb, length,
}
use cc_snippets.Lru.{
  Cache, find, get, put, back, drop_back, make_room, insert_front, splice_front, set_value,
  pop_back, assign,
}
use cc_snippets.Lru.Refine.{Call, get_of, put_of}
use cc_snippets.ConcurrentLru.{
  Point, finding, setting, moving, evicting, popping, pushing, mapping, returning, evict, found,
  advance,
}

module _ {K V : Type 0} (dec : Discrete K) where
  -- A call of null/lru_cache.h, and several one after the other: the cache that they leave and the
  -- pointers that they return.
  unfoldable pub call : Cache K V → Call K V → Cache K V × Option ℕ
  unfolding get put
  call c (get_of key) = get dec c key
  call c (put_of key value) = (put dec c key value, none)

  unfoldable pub last_cache : Cache K V → List (Call K V) → Cache K V
  unfolding call
  last_cache c [] = c
  last_cache c (k ∷ ks) = last_cache (call c k).0 ks

  unfoldable pub run_calls : Cache K V → List (Call K V) → List (Option ℕ)
  unfolding call
  run_calls c [] = []
  run_calls c (k ∷ ks) = let (c', out) = call c k in out ∷ run_calls c' ks

  pub last_cache-append :
      (c : Cache K V) (ks : List (Call K V)) (k : Call K V)
      → last_cache c (ks ++ k ∷ []) ≡ (call (last_cache c ks) k).0
  unfolding last_cache
  last_cache-append c [] k = refl
  last_cache-append c (x ∷ ks) k = last_cache-append (call c x).0 ks k

  pub run_calls-append :
      (c : Cache K V) (ks : List (Call K V)) (k : Call K V)
      → run_calls c (ks ++ k ∷ []) ≡ run_calls c ks ++ (call (last_cache c ks) k).1 ∷ []
  unfolding run_calls last_cache
  run_calls-append c [] k = refl
  run_calls-append c (x ∷ ks) k = ap (◌∷◌ (call c x).1) (run_calls-append (call c x).0 ks k)

  -- What a call leaves and returns if it goes on from a point alone.
  unfoldable pub finish : Cache K V → Point K V → Cache K V × Option ℕ
  unfolding call insert_front make_room splice_front set_value pop_back assign
  finish c (finding k) = call c k
  finish c (setting it value) =
      (record c { list = splice_front it (set_value it value c.list) }, none)
  finish c (moving it out) = (record c { list = splice_front it c.list }, out)
  finish c (evicting key value) = (insert_front dec (make_room dec c) key value, none)
  finish c (popping key value) =
      (insert_front dec (record c { list = pop_back c.list }) key value, none)
  finish c (pushing key value) = (insert_front dec c key value, none)
  finish c (mapping key it) = (record c { map = assign dec key it c.map }, none)
  finish c (returning out) = (c, out)

  evict-finish :
      (c : Cache K V) (key : K) (value : V)
      → (let (c', p) = evict dec c key value (back c.list) in finish c' p)
        ≡ (insert_front dec (drop_back dec c (back c.list)) key value, none)
  unfolding evict finish drop_back
  evict-finish c key value = elim (Option-cases (back c.list)) [
    | inl e ↦ rw e refl
    | inr (n, e) ↦ rw e refl
  ]

  found-get_finish :
      (c : Cache K V) (key : K) (o : Option ℕ)
      → finish c (found (get_of key) o) ≡ elim o [
        | none ↦ (c, none)
        | some it ↦ (record c { list = splice_front it c.list }, some it)
      ]
  unfolding found finish
  found-get_finish c key none = refl
  found-get_finish c key (some it) = refl

  found-put_finish :
      (c : Cache K V) (key : K) (value : V) (o : Option ℕ)
      → finish c (found (put_of key value) o) ≡ (
        elim o [
          | some it ↦ record c { list = splice_front it (set_value it value c.list) }
          | none ↦ insert_front dec (make_room dec c) key value
        ],
        none,
      )
  unfolding found finish
  found-put_finish c key value none = refl
  found-put_finish c key value (some it) = refl

  -- An access does not change what the call leaves and returns in the end.
  pub advance-finish :
      (c : Cache K V) (p : Point K V)
      → (let (c', p') = advance dec c p in finish c' p') ≡ finish c p
  unfolding advance finish call get put make_room insert_front
  advance-finish c (finding (get_of key)) = found-get_finish c key (find dec key c.map)
  advance-finish c (finding (put_of key value)) = found-put_finish c key value (find dec key c.map)
  advance-finish c (setting it value) = refl
  advance-finish c (moving it out) = refl
  advance-finish c (evicting key value) = elim (Bool-cases (leb c.capacity (length c.list))) [
    | inl e ↦ rw e (evict-finish c key value)
    | inr e ↦ rw e refl
  ]
  advance-finish c (popping key value) = refl
  advance-finish c (pushing key value) = refl
  advance-finish c (mapping key it) = refl
  advance-finish c (returning out) = refl
