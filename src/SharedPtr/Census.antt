-- ===== src/SharedPtr/Census.antt =====
-- The handles of null/shared_ptr.h and null/weak_ptr.h that lead to a control block, and what the
-- constructors and destructors do to their number.
use cc_snippets.Prelude.{
  ℕ, zero, suc, ◌+◌, ◌<◌, ◌≡◌, refl, List, [], ◌∷◌, Option, none, some, ◌==◌, if◌then◌else◌, arith,
  Option-cases, Bool-cases, inl, inr, get_elem?, set,
}
use cc_snippets.SharedPtr.{Heap}
use cc_snippets.SharedPtr.Counts.{
  IsCounted, IsCounted-ext, inc_use_count-IsCounted, inc_weak_count-IsCounted,
  dec_use_count-IsCounted, dec_weak_count-IsCounted, lock_use_count-IsCounted,
}
use cc_snippets.SharedPtr.Handles.{Ptr, null, copy_shared, copy_weak, drop_shared, drop_weak, lock}
use cc_snippets.SharedPtr.Program.{remove_at}

-- whether a handle leads to the block at an address, as a number
abbrev pub claims : Option ℕ → ℕ → ℕ
claims none a = 0
claims (some cb) a = if a == cb then 1 else 0

-- how many handles lead to the block at an address
abbrev pub handles : List Ptr → ℕ → ℕ
handles [] a = 0
handles (p ∷ l) a = claims p.cb a + handles l a

pub handles-set :
    (l : List Ptr) (i : ℕ) (p q : Ptr) (a : ℕ)
    → get_elem? l i ≡ some p
    → handles (set l i q) a + claims p.cb a ≡ handles l a + claims q.cb a
handles-set [] i p q a e = cc
handles-set (x ∷ l) zero p q a e = ground arith
handles-set (x ∷ l) (suc i) p q a e = omega (arith, handles-set l i p q a e)

pub handles-remove_at :
    (l : List Ptr) (i : ℕ) (p : Ptr) (a : ℕ)
    → get_elem? l i ≡ some p
    → handles (remove_at l i) a + claims p.cb a ≡ handles l a
unfolding remove_at
handles-remove_at [] i p a e = cc
handles-remove_at (x ∷ l) zero p a e = ground arith
handles-remove_at (x ∷ l) (suc i) p a e = omega (arith, handles-remove_at l i p a e)

pub handles-pos :
    (l : List Ptr) (i cb : ℕ) (p : Ptr) → get_elem? l i ≡ some p → p.cb ≡ some cb → 0 < handles l cb
handles-pos [] i cb p e f = cc
handles-pos (x ∷ l) zero cb p e f = ground arith
handles-pos (x ∷ l) (suc i) cb p e f = omega (arith, handles-pos l i cb p e f)

module _ (p : Ptr) (h : Heap) (strong weak : ℕ → ℕ) where
  -- One handle more than `strong` says, and its destructor.
  pub drop_shared-IsCounted :
      IsCounted h (λ a. claims p.cb a + strong a) weak
      → (h' : Heap) × (drop_shared p h ≡ some h') × IsCounted h' strong weak
  unfolding drop_shared
  drop_shared-IsCounted c = elim (Option-cases p.cb) [
    | inl e ↦ rw e (h, refl, IsCounted-ext h _ strong weak weak (λ a. ground arith) (λ a. refl) c)
    | inr (cb, e) ↦ rw e (
        dec_use_count-IsCounted cb h strong weak
          (IsCounted-ext h _ _ weak weak (λ a. ground arith) (λ a. refl) c))
  ]

  pub drop_weak-IsCounted :
      IsCounted h strong (λ a. claims p.cb a + weak a)
      → (h' : Heap) × (drop_weak p h ≡ some h') × IsCounted h' strong weak
  unfolding drop_weak
  drop_weak-IsCounted c = elim (Option-cases p.cb) [
    | inl e ↦ rw e (h, refl, IsCounted-ext h strong strong _ weak (λ a. refl) (λ a. ground arith) c)
    | inr (cb, e) ↦ rw e (
        dec_weak_count-IsCounted cb h strong weak
          (IsCounted-ext h strong strong _ _ (λ a. refl) (λ a. ground arith) c))
  ]

  -- A copy of a handle that the program holds.
  pub copy_shared-IsCounted :
      IsCounted h strong weak
      → ((cb : ℕ) → p.cb ≡ some cb → 0 < strong cb)
      → (h' : Heap) × (copy_shared p h ≡ some h')
        × IsCounted h' (λ a. claims p.cb a + strong a) weak
  unfolding copy_shared
  copy_shared-IsCounted c held = elim (Option-cases p.cb) [
    | inl e ↦ rw e (h, refl, IsCounted-ext h strong _ weak weak (λ a. ground arith) (λ a. refl) c)
    | inr (cb, e) ↦
        let (h', f, c') = inc_use_count-IsCounted cb h strong weak c (held cb e) in
        rw e (h', f, IsCounted-ext h' _ _ weak weak (λ a. ground arith) (λ a. refl) c')
  ]

  pub copy_weak-IsCounted :
      IsCounted h strong weak
      → ((cb : ℕ) → p.cb ≡ some cb → 0 < strong cb + weak cb)
      → (h' : Heap) × (copy_weak p h ≡ some h') × IsCounted h' strong (λ a. claims p.cb a + weak a)
  unfolding copy_weak
  copy_weak-IsCounted c held = elim (Option-cases p.cb) [
    | inl e ↦ rw e (h, refl, IsCounted-ext h strong strong weak _ (λ a. refl) (λ a. ground arith) c)
    | inr (cb, e) ↦
        let (h', f, c') = inc_weak_count-IsCounted cb h strong weak c (held cb e) in
        rw e (h', f, IsCounted-ext h' strong strong _ _ (λ a. refl) (λ a. ground arith) c')
  ]

  -- `lock ()` makes a shared handle of the block, if there is one already, and else an empty one.
  pub lock-IsCounted :
      (failures : ℕ)
      → IsCounted h strong weak
      → ((cb : ℕ) → p.cb ≡ some cb → 0 < weak cb)
      → (h' : Heap) × (q : Ptr) × (lock failures p h ≡ some (h', q))
        × IsCounted h' (λ a. claims q.cb a + strong a) weak
        × ((cb : ℕ) → p.cb ≡ some cb → q ≡ (if strong cb == 0 then null else p))
  unfolding lock
  lock-IsCounted failures c held = elim (Option-cases p.cb) [
    | inl e ↦ (
      h,
      null,
      ground arith,
      IsCounted-ext h strong _ weak weak (λ a. ground arith) (λ a. refl) c,
      λ cb f. cc,
    )
    | inr (cb, e) ↦
        let (h', f, c') = lock_use_count-IsCounted failures cb h strong weak c (held cb e) in
        elim (Bool-cases (strong cb == 0)) [
          | inl gone ↦ (
            h',
            null,
            ground arith,
            IsCounted-ext h' _ _ weak weak (λ a. ground arith) (λ a. refl) c',
            λ cb' g. ground arith,
          )
          | inr some_held ↦ (
            h',
            p,
            ground arith,
            IsCounted-ext h' _ _ weak weak (λ a. ground arith) (λ a. refl) c',
            λ cb' g. ground arith,
          )
        ]
  ]
