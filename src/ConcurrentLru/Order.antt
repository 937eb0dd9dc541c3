-- ===== src/ConcurrentLru/Order.antt =====
-- The order of the calls in a run of null/concurrent_lru_cache.h.
use mathlib.Core.Path.{subst}
use mathlib.Core.Option.{some-injective}
use cc_snippets.Prelude.{
  ℕ, ◌≡◌, ◌≢◌, refl, sym, ap, ◌∙◌, List, [], ◌∷◌, ◌++◌, Option, none, some, get_elem?, set, arith,
  get_elem?-set_ne, Option-cases, inl, inr, ◌⊎◌,
}
use cc_snippets.Lru.{Cache, init}
use cc_snippets.Lru.Refine.{Call}
use cc_snippets.ConcurrentLru.{
  Point, finding, setting, moving, evicting, popping, pushing, mapping, returning, Thread, outside,
  locking, inside, World, around, Event, calls, locks, works, start, begin, take_mutex, advance,
  work_at, work, step, run,
}
use cc_snippets.ConcurrentLru.Places.{
  get_elem?-set_cases, get_elem?-set_same, outside-ne-inside, get_elem?-outside,
}
use cc_snippets.ConcurrentLru.Alone.{
  call, last_cache, run_calls, last_cache-append, run_calls-append, finish, advance-finish,
}

module _ {K V : Type 0} (dec : Discrete K) where
  -- A thread inside a call holds the mutex, and its call ends as on the cache that it found.
  unfoldable IsAlone : Cache K V → Option ℕ → Cache K V → ℕ → Thread K V → Type 0
  unfolding finish call
  IsAlone cache owner base i outside = Unit
  IsAlone cache owner base i (locking c) = Unit
  IsAlone cache owner base i (inside c p) =
      (owner ≡ some i) × (finish dec cache p ≡ call dec base c)

  -- No thread holds the mutex, and the cache is this one; or a thread holds it and is inside a call.
  unfoldable pub IsFreeOrHeld : World K V → Cache K V → Type 0
  IsFreeOrHeld w base =
      ((w.owner ≡ none) × (w.cache ≡ base))
      ⊎ ((i : ℕ) × (k : Call K V) × (p : Point K V) × (w.owner ≡ some i)
          × (get_elem? w.threads i ≡ some (inside k p)))

  -- The results are those of the finished calls, one after the other, and so is the cache while no
  -- thread holds the mutex.
  record IsLinear (c : Cache K V) (w : World K V) : Type 0 where
    results : w.results ≡ run_calls dec c w.finished
    mutex : IsFreeOrHeld w (last_cache dec c w.finished)
    alone :
        (i : ℕ) (t : Thread K V)
        → get_elem? w.threads i ≡ some t
        → IsAlone w.cache w.owner (last_cache dec c w.finished) i t

  -- Another thread than the owner is not inside.
  other-IsAlone :
      (cache cache' base base' : Cache K V) (owner owner' : Option ℕ) (i : ℕ) (t : Thread K V)
      → owner ≢ some i
      → IsAlone cache owner base i t
      → IsAlone cache' owner' base' i t
  unfolding IsAlone
  other-IsAlone cache cache' base base' owner owner' i outside n a = tt
  other-IsAlone cache cache' base base' owner owner' i (locking c) n a = tt
  other-IsAlone cache cache' base base' owner owner' i (inside c p) n a = absurd (n a.0)

  -- One thread moves, and no other one is inside.
  move-IsAlone :
      (c : Cache K V) (w : World K V) (i : ℕ) (t : Thread K V) (cache' base' : Cache K V)
      (owner' : Option ℕ)
      → ((j : ℕ) → i ≢ j → w.owner ≢ some j)
      → IsLinear c w
      → IsAlone cache' owner' base' i t
      → (j : ℕ) (u : Thread K V) → get_elem? (set w.threads i t) j ≡ some u
      → IsAlone cache' owner' base' j u
  move-IsAlone c w i t cache' base' owner' n v a j u e =
      elim (get_elem?-set_cases w.threads i j t u e) [
        | inl (h, q) ↦
            subst (IsAlone cache' owner' base' j) q
              (subst (λ k. IsAlone cache' owner' base' k t) h a)
        | inr (h, q) ↦ other-IsAlone _ _ _ _ w.owner owner' j u (n j h) (v.alone j u q)
      ]

  begin-IsLinear :
      (c : Cache K V) (w : World K V) (i : ℕ) (k : Call K V) (t : Option (Thread K V))
      → get_elem? w.threads i ≡ t
      → IsLinear c w
      → IsLinear c (begin w i k t)
  unfolding begin IsAlone IsFreeOrHeld
  begin-IsLinear c w i k none g v = v
  begin-IsLinear c w i k (some (locking d)) g v = v
  begin-IsLinear c w i k (some (inside d p)) g v = v
  begin-IsLinear c w i k (some outside) g v = record {
    results = v.results;
    mutex = elim v.mutex [
      | inl x ↦ inl x
      | inr (j, d, p, o, h) ↦ inr (
        j,
        d,
        p,
        o,
        get_elem?-set_ne w.threads (locking k) (outside-ne-inside w.threads i j d p g h) ∙ h,
      )
    ];
    alone = λ j u e. elim (get_elem?-set_cases w.threads i j (locking k) u e) [
      | inl (h, q) ↦ subst (IsAlone w.cache w.owner (last_cache dec c w.finished) j) q tt
      | inr (h, q) ↦ v.alone j u q
    ];
  }

  take_mutex-IsLinear :
      (c : Cache K V) (w : World K V) (i : ℕ) (t : Option (Thread K V)) (o : Option ℕ)
      → get_elem? w.threads i ≡ t
      → w.owner ≡ o
      → IsLinear c w
      → IsLinear c (take_mutex w i t o)
  unfolding take_mutex IsAlone IsFreeOrHeld finish
  take_mutex-IsLinear c w i none o g e v = v
  take_mutex-IsLinear c w i (some outside) o g e v = v
  take_mutex-IsLinear c w i (some (inside d p)) o g e v = v
  take_mutex-IsLinear c w i (some (locking d)) (some k) g e v = v
  take_mutex-IsLinear c w i (some (locking d)) none g e v = record {
    results = v.results;
    mutex = inr (
      i,
      d,
      finding d,
      refl,
      get_elem?-set_same w.threads i (locking d) (inside d (finding d)) g,
    );
    alone =
        move-IsAlone c w i (inside d (finding d)) w.cache (last_cache dec c w.finished) (some i)
          (λ j n h. cc) v
          (refl, elim v.mutex [ inl (_, q) ↦ ap (λ x. call dec x d) q | inr (j, k, p, o, h) ↦ cc ]);
  }

  held : (w : World K V) (i : ℕ) → w.owner ≡ some i → (j : ℕ) → i ≢ j → w.owner ≢ some j
  held w i o j n h = n (some-injective i j (sym o ∙ h))

  -- One access of the thread that holds the mutex.
  access-IsLinear :
      (c : Cache K V) (w : World K V) (i : ℕ) (k : Call K V) (p : Point K V)
      → get_elem? w.threads i ≡ some (inside k p)
      → IsLinear c w
      → let (cache, p') = advance dec w.cache p in
        IsLinear c (record w { cache = cache; threads = set w.threads i (inside k p') })
  unfolding IsAlone IsFreeOrHeld
  access-IsLinear c w i k p g v =
      let (o, f) = v.alone i (inside k p) g in
      let (cache, p') = advance dec w.cache p in
      record {
        results = v.results;
        mutex = inr (i, k, p', o, get_elem?-set_same w.threads i (inside k p) (inside k p') g);
        alone =
            move-IsAlone c w i (inside k p') cache (last_cache dec c w.finished) w.owner
              (held w i o) v (o, advance-finish dec w.cache p ∙ f);
      }

  return-IsLinear :
      (c : Cache K V) (w : World K V) (i : ℕ) (k : Call K V) (out : Option ℕ)
      → get_elem? w.threads i ≡ some (inside k (returning out))
      → IsLinear c w
      → IsLinear c (work_at dec w i k (returning out))
  unfolding work_at IsAlone IsFreeOrHeld finish
  return-IsLinear c w i k out g v =
      let (o, f) = v.alone i (inside k (returning out)) g in
      record {
        results =
            ap (λ r. r ++ out ∷ []) v.results
            ∙ (ap (λ r. run_calls dec c w.finished ++ r ∷ []) (ap (λ x. x.1) f)
                ∙ sym (run_calls-append dec c w.finished k));
        mutex = inl (refl, ap (λ x. x.0) f ∙ sym (last_cache-append dec c w.finished k));
        alone =
            move-IsAlone c w i outside w.cache (last_cache dec c (w.finished ++ k ∷ [])) none
              (held w i o) v tt;
      }

  work-IsLinear :
      (c : Cache K V) (w : World K V) (i : ℕ) (t : Option (Thread K V))
      → get_elem? w.threads i ≡ t
      → IsLinear c w
      → IsLinear c (work dec w i t)
  unfolding work work_at
  work-IsLinear c w i none g v = v
  work-IsLinear c w i (some outside) g v = v
  work-IsLinear c w i (some (locking k)) g v = v
  work-IsLinear c w i (some (inside k (finding d))) g v = access-IsLinear c w i k (finding d) g v
  work-IsLinear c w i (some (inside k (setting it x))) g v =
      access-IsLinear c w i k (setting it x) g v
  work-IsLinear c w i (some (inside k (moving it out))) g v =
      access-IsLinear c w i k (moving it out) g v
  work-IsLinear c w i (some (inside k (evicting y x))) g v =
      access-IsLinear c w i k (evicting y x) g v
  work-IsLinear c w i (some (inside k (popping y x))) g v =
      access-IsLinear c w i k (popping y x) g v
  work-IsLinear c w i (some (inside k (pushing y x))) g v =
      access-IsLinear c w i k (pushing y x) g v
  work-IsLinear c w i (some (inside k (mapping y it))) g v =
      access-IsLinear c w i k (mapping y it) g v
  work-IsLinear c w i (some (inside k (returning out))) g v = return-IsLinear c w i k out g v

  step-IsLinear :
      (c : Cache K V) (w : World K V) (e : Event K V) → IsLinear c w → IsLinear c (step dec w e)
  unfolding step
  step-IsLinear c w (calls i k) v = begin-IsLinear c w i k (get_elem? w.threads i) refl v
  step-IsLinear c w (locks i) v =
      take_mutex-IsLinear c w i (get_elem? w.threads i) w.owner refl refl v
  step-IsLinear c w (works i) v = work-IsLinear c w i (get_elem? w.threads i) refl v

  run-IsLinear :
      (c : Cache K V) (w : World K V) (es : List (Event K V))
      → IsLinear c w
      → IsLinear c (run dec w es)
  unfolding run
  run-IsLinear c w [] v = v
  run-IsLinear c w (e ∷ es) v = run-IsLinear c (step dec w e) es (step-IsLinear c w e v)

  around-IsLinear : (threads : ℕ) (c : Cache K V) → IsLinear c (around threads c)
  unfolding run_calls last_cache IsAlone IsFreeOrHeld
  around-IsLinear threads c = record {
    results = refl;
    mutex = inl (refl, refl);
    alone = λ i t e. subst (IsAlone c none c i) (get_elem?-outside threads i t e) tt;
  }

  start-around :
      (capacity threads : ℕ) (w : World K V)
      → start capacity threads ≡ some w
      → (c : Cache K V) × (init capacity ≡ some c) × (around threads c ≡ w)
  unfolding start
  start-around capacity threads w e = elim (Option-cases (init {K = K} {V = V} capacity)) [
    | inl n ↦ absurd (ground arith)
    | inr (c, h) ↦ (c, h, some-injective (around threads c) w (ground arith))
  ]

  -- In every run of any number of threads from a new cache, whose steps are the accesses of the
  -- calls to the list and the map in any order, the calls return the pointers that a cache of
  -- null/lru_cache.h of the same capacity returns to the same calls one after the other, in the
  -- order in which they returned; and either no thread holds the mutex and its cache is the same, or
  -- the thread that holds it is inside a call.
  pub run_linear :
      (capacity threads : ℕ) (es : List (Event K V)) (w : World K V)
      → start capacity threads ≡ some w
      → let w' = run dec w es in
        (c : Cache K V) × (init capacity ≡ some c)
        × (w'.results ≡ run_calls dec c w'.finished)
        × IsFreeOrHeld w' (last_cache dec c w'.finished)
  run_linear capacity threads es w e =
      let (c, h, q) = start-around capacity threads w e in
      let v = run-IsLinear c w es (subst (IsLinear c) q (around-IsLinear threads c)) in
      (c, h, IsLinear.results v, IsLinear.mutex v)
