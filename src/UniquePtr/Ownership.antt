-- ===== src/UniquePtr/Ownership.antt =====
-- Who owns an object that was given to null/unique_ptr.h.
use cc_snippets.Prelude.{
  ℕ, zero, suc, ◌+◌, ◌≡◌, refl, ap, ◌∙◌, ◌==◌, if◌then◌else◌, List, [], ◌∷◌, Option, none, some,
  get_elem?, set, arith, Option-cases, Bool-cases, inl, inr, false,
}
use cc_snippets.UniquePtr.{
  Unique, construct, construct_with, move_construct, destruct, swap, reset, release, move_assign,
  move_assign_self,
}
use cc_snippets.UniquePtr.Program.{World, Call, call, run, start, remove_at, at}

-- whether a pointer is `obj`, as a number
abbrev pub leads : ℕ → Option ℕ → ℕ
leads obj none = 0
leads obj (some p) = if p == obj then 1 else 0

-- how often `obj` stands among pointers
abbrev pub times : ℕ → List (Option ℕ) → ℕ
times obj [] = 0
times obj (p ∷ l) = leads obj p + times obj l

module _ {ℓ} {D : Type ℓ} where
  abbrev pub times_owned : ℕ → List (Unique D) → ℕ
  times_owned obj [] = 0
  times_owned obj (u ∷ l) = leads obj u.ptr + times_owned obj l

  abbrev pub times_deleted : ℕ → List (D × ℕ) → ℕ
  times_deleted obj [] = 0
  times_deleted obj ((d, p) ∷ l) = leads obj (some p) + times_deleted obj l

  times_owned-set :
      (obj : ℕ) (l : List (Unique D)) (i : ℕ) (u v : Unique D)
      → get_elem? l i ≡ some u
      → times_owned obj (set l i v) + leads obj u.ptr ≡ times_owned obj l + leads obj v.ptr
  times_owned-set obj [] i u v e = cc
  times_owned-set obj (x ∷ l) zero u v e = ground arith
  times_owned-set obj (x ∷ l) (suc i) u v e = omega (arith, times_owned-set obj l i u v e)

  times_owned-remove_at :
      (obj : ℕ) (l : List (Unique D)) (i : ℕ) (u : Unique D)
      → get_elem? l i ≡ some u
      → times_owned obj (remove_at l i) + leads obj u.ptr ≡ times_owned obj l
  unfolding remove_at
  times_owned-remove_at obj [] i u e = cc
  times_owned-remove_at obj (x ∷ l) zero u e = ground arith
  times_owned-remove_at obj (x ∷ l) (suc i) u e = omega (arith, times_owned-remove_at obj l i u e)

  get_elem?-set_place :
      (l : List (Unique D)) (i j : ℕ) (p q r : Unique D)
      → get_elem? l i ≡ some p
      → get_elem? l j ≡ some q
      → get_elem? (set l i r) j ≡ some (if i == j then r else q)
  get_elem?-set_place [] i j p q r e f = cc
  get_elem?-set_place (x ∷ l) zero zero p q r e f = refl
  get_elem?-set_place (x ∷ l) zero (suc j) p q r e f = ground arith
  get_elem?-set_place (x ∷ l) (suc i) zero p q r e f = ground arith
  get_elem?-set_place (x ∷ l) (suc i) (suc j) p q r e f =
      ground (arith, get_elem?-set_place l i j p q r e f)

  times_deleted-destruct :
      (obj : ℕ) (u : Unique D) (log : List (D × ℕ))
      → times_deleted obj (destruct u log) ≡ leads obj u.ptr + times_deleted obj log
  unfolding destruct
  times_deleted-destruct obj u log = ground arith

  -- Each pointer that was adopted is owned, deleted or released, as often as it was adopted.
  abbrev pub IsConserved : ℕ → World D → Type 0
  IsConserved obj w =
      times_owned obj w.objects + times_deleted obj w.log + times obj w.released
      ≡ times obj w.adopted

  at-IsConserved :
      (obj : ℕ) (w : World D) (i : ℕ) (f : Unique D → World D)
      → IsConserved obj w
      → ((u : Unique D) → get_elem? w.objects i ≡ some u → IsConserved obj (f u))
      → IsConserved obj (at w i f)
  at-IsConserved obj w i f c g = elim (Option-cases (get_elem? w.objects i)) [
    | inl e ↦ rw (e, at) c
    | inr (u, e) ↦ rw (e, at) (g u e)
  ]

  get_elem?-set_differ :
      (l : List (Unique D)) (i j : ℕ) (p q r : Unique D)
      → (i == j) ≡ false
      → get_elem? l i ≡ some p
      → get_elem? l j ≡ some q
      → get_elem? (set l i r) j ≡ some q
  get_elem?-set_differ l i j p q r differ e f =
      get_elem?-set_place l i j p q r e f ∙ ap (λ b. some (if b then r else q)) differ

  module _ (fresh : D) (moved : D → D) (obj : ℕ) where
    -- Two objects that take one another's pointers, also if they are one object.
    two-places :
        (w : World D) (i j : ℕ) (this other u v : Unique D)
        → u.ptr ≡ other.ptr
        → v.ptr ≡ this.ptr
        → get_elem? w.objects i ≡ some this
        → get_elem? w.objects j ≡ some other
        → IsConserved obj w
        → IsConserved obj (record w { objects = set (set w.objects i u) j v })
    two-places w i j this other u v e f d g c =
        let here : leads obj u.ptr ≡ leads obj other.ptr = ap (leads obj) e in
        let there : leads obj v.ptr ≡ leads obj this.ptr = ap (leads obj) f in
        let first = times_owned-set obj w.objects i this u d in
        elim (Bool-cases (i == j)) [
          | inl same ↦ omega (
            arith,
            c,
            first,
            here,
            there,
            times_owned-set obj (set w.objects i u) j u v (
                get_elem?-set_place w.objects i j this other u d g
                ∙ ap (λ b. some (if b then u else other)) same),
          )
          | inr differ ↦ omega (
            arith,
            c,
            first,
            here,
            there,
            times_owned-set obj (set w.objects i u) j other v
                (get_elem?-set_differ w.objects i j this other u differ d g),
          )
        ]

    call-IsConserved :
        (w : World D) (c : Call D) → IsConserved obj w → IsConserved obj (call fresh moved w c)
    unfolding call construct construct_with move_construct swap reset release move_assign
        move_assign_self
    call-IsConserved w (Call.constructs p) c = omega arith
    call-IsConserved w (Call.constructs_with p d) c = omega arith
    call-IsConserved w (Call.moves j) c = at-IsConserved obj w j _ c λ other e. omega (
      arith,
      times_owned-set obj w.objects j other (record { del = moved other.del; ptr = none }) e,
    )
    call-IsConserved w (Call.destructs i) c = at-IsConserved obj w i _ c λ this e.
        omega (
          arith,
          times_owned-remove_at obj w.objects i this e,
          times_deleted-destruct obj this w.log,
        )
    call-IsConserved w (Call.releases i) c =
        at-IsConserved obj w i _ c λ this e.
          omega (arith, times_owned-set obj w.objects i this (record this { ptr = none }) e)
    call-IsConserved w (Call.resets i p) c = at-IsConserved obj w i _ c λ this e. omega (
      arith,
      times_owned-set obj w.objects i this (record { del = fresh; ptr = p }) e,
      times_deleted-destruct obj this w.log,
    )
    call-IsConserved w (Call.swaps i j) c = at-IsConserved obj w i _ c λ this d.
        at-IsConserved obj w j _ c λ other e.
          two-places w i j this other (record { del = other.del; ptr = other.ptr })
            (record { del = this.del; ptr = this.ptr }) refl refl d e c
    call-IsConserved w (Call.move_assigns i j) c = at-IsConserved obj w i _ c λ this d.
        at-IsConserved obj w j _ c λ other e. elim (Bool-cases (i == j)) [
          | inl same ↦ rw same (omega (arith, times_owned-set obj w.objects i this this d, c))
          | inr differ ↦
              let u : Unique D = record { del = other.del; ptr = other.ptr } in
              rw differ (
                omega (
                  arith,
                  c,
                  times_deleted-destruct obj this w.log,
                  times_owned-set obj w.objects i this u d,
                  times_owned-set obj (set w.objects i u) j other
                      (record { del = moved other.del; ptr = none })
                      (get_elem?-set_differ w.objects i j this other u differ d e),
                ))
        ]

    run-IsConserved :
        (cs : List (Call D)) (w : World D)
        → IsConserved obj w
        → IsConserved obj (run fresh moved w cs)
    unfolding run
    run-IsConserved [] w c = c
    run-IsConserved (k ∷ cs) w c =
        run-IsConserved cs (call fresh moved w k) (call-IsConserved w k c)

  module _ (fresh : D) (moved : D → D) where
    -- After every sequence of constructions, moves, assignments, swaps, resets, releases and
    -- destructions, self-assignments and self-swaps included, an object stands in a unique_ptr, in a
    -- call of a deleter or in a result of release as often, in all, as the program handed it to a
    -- constructor or to reset: no pointer is lost, and none is deleted twice.
    pub run_conserved :
        (cs : List (Call D)) (obj : ℕ)
        → let w = run fresh moved start cs in
          times_owned obj w.objects + times_deleted obj w.log + times obj w.released
          ≡ times obj w.adopted
    run_conserved cs obj = run-IsConserved fresh moved obj cs start (unfold start in (omega arith))

    -- reset deletes the old object with the deleter that it had, and leaves the new one with a fresh
    -- deleter, whatever deleter the unique_ptr was made with; so does the destructor that follows.
    pub destruct-reset :
        (obj new : ℕ) (del : D) (log : List (D × ℕ))
        → let (this, log') = reset fresh moved (some new) (construct_with (some obj) del) log in
          (this.del ≡ fresh) × (destruct this log' ≡ (fresh, new) ∷ (del, obj) ∷ log)
    unfolding reset construct_with destruct
    destruct-reset obj new del log = (refl, refl)

    -- A unique_ptr that takes over from another by move assignment has its pointer and its deleter,
    -- leaves it empty, and deletes the object that it had before with the deleter that it had before.
    pub move_assign_lem :
        (this other : Unique D) (log : List (D × ℕ))
        → let (this', other', log') = move_assign fresh moved this other log in
          (this'.ptr ≡ other.ptr)
          × (this'.del ≡ other.del)
          × (other'.ptr ≡ none)
          × (log' ≡ destruct this log)
    unfolding move_assign destruct
    move_assign_lem this other log = (refl, refl, refl, refl)
