-- ===== src/SharedPtr/Counts.antt =====
-- The counters of the control blocks of null/shared_ptr.h against the handles that there are.
use cc_snippets.Prelude.{
  ℕ, zero, suc, ◌+◌, ◌-◌, ◌<◌, ◌≤◌, ◌≡◌, refl, true, false, List, [], ◌∷◌, Option, none, some, ◌==◌,
  if◌then◌else◌, arith, not, Option-cases, Bool-cases, inl, inr,
}
use cc_snippets.SharedPtr.{
  Block, Deletion, disposed, abandoned, Heap, load, store, allocate, inc_use_count, inc_weak_count,
  lock_loop, lock_use_count, destroy, dispose, dec_weak_count, dec_use_count,
}

abbrev pub times_disposed : ℕ → List Deletion → ℕ
times_disposed cb [] = 0
times_disposed cb (disposed a ptr ∷ l) =
    if a == cb then suc (times_disposed cb l) else times_disposed cb l
times_disposed cb (abandoned ptr ∷ l) = times_disposed cb l

-- The control block at an address to which `strong` shared and `weak` weak handles lead.
abbrev pub Counts : Option Block → (strong weak deleted : ℕ) → Type 0
Counts none strong weak deleted = (strong ≡ 0) × (weak ≡ 0) × (deleted ≡ 0)
Counts (some b) strong weak deleted =
    (b.use_count ≡ strong)
    × (b.weak_count ≡ weak + (if strong == 0 then 0 else 1))
    × (deleted ≡ (if strong == 0 then 1 else 0))
    × (b.alive ≡ not (b.weak_count == 0))

-- `strong` and `weak` give the number of handles of each address.
pub record IsCounted (h : Heap) (strong weak : ℕ → ℕ) : Type 0 where
  pub counts : (a : ℕ) → Counts (h.block a) (strong a) (weak a) (times_disposed a h.deletions)
  pub fresh : (a : ℕ) → h.next ≤ a → h.block a ≡ none

abbrev pub plus_one : ℕ → (ℕ → ℕ) → ℕ → ℕ
plus_one cb f a = if a == cb then suc (f a) else f a

pub inc_use_count-IsCounted :
    (cb : ℕ) (h : Heap) (strong weak : ℕ → ℕ)
    → IsCounted h strong weak
    → 0 < strong cb
    → (h' : Heap) × (inc_use_count cb h ≡ some h') × IsCounted h' (plus_one cb strong) weak
unfolding inc_use_count load
inc_use_count-IsCounted cb h strong weak c pos = elim (Option-cases (h.block cb)) [
  | inl e ↦ absurd (ground (arith, c.counts cb))
  | inr (b, e) ↦ (
    store cb (record b { use_count = b.use_count + 1 }) h,
    ground (arith, c.counts cb),
    record {
      counts = λ a. ground (arith, c.counts a, c.counts cb);
      fresh = λ a le. ground (arith, c.fresh a, c.fresh cb);
    },
  )
]

pub inc_weak_count-IsCounted :
    (cb : ℕ) (h : Heap) (strong weak : ℕ → ℕ)
    → IsCounted h strong weak
    → 0 < strong cb + weak cb
    → (h' : Heap) × (inc_weak_count cb h ≡ some h') × IsCounted h' strong (plus_one cb weak)
unfolding inc_weak_count load
inc_weak_count-IsCounted cb h strong weak c pos = elim (Option-cases (h.block cb)) [
  | inl e ↦ absurd (ground (arith, c.counts cb))
  | inr (b, e) ↦ (
    store cb (record b { weak_count = b.weak_count + 1 }) h,
    ground (arith, c.counts cb),
    record {
      counts = λ a. ground (arith, c.counts a, c.counts cb);
      fresh = λ a le. ground (arith, c.fresh a, c.fresh cb);
    },
  )
]

pub dec_weak_count-IsCounted :
    (cb : ℕ) (h : Heap) (strong weak : ℕ → ℕ)
    → IsCounted h strong (plus_one cb weak)
    → (h' : Heap) × (dec_weak_count cb h ≡ some h') × IsCounted h' strong weak
unfolding dec_weak_count load destroy
dec_weak_count-IsCounted cb h strong weak c = elim (Option-cases (h.block cb)) [
  | inl e ↦ absurd (ground (arith, c.counts cb))
  | inr (b, e) ↦
      let b' = record b { weak_count = b.weak_count - 1 } in
      (
        if b.weak_count == 1 then destroy cb b' (store cb b' h) else store cb b' h,
        ground (arith, c.counts cb),
        record {
          counts = λ a. ground (arith, c.counts a, c.counts cb);
          fresh = λ a le. ground (arith, c.fresh a, c.fresh cb);
        },
      )
]

pub allocate-IsCounted :
    (ptr : ℕ) (h : Heap) (strong weak : ℕ → ℕ)
    → IsCounted h strong weak
    → IsCounted (allocate ptr h) (plus_one h.next strong) weak
unfolding allocate
allocate-IsCounted ptr h strong weak c = record {
  counts = λ a. ground (arith, c.counts a, c.fresh a);
  fresh = λ a le. ground (arith, c.fresh a);
}

-- When the last shared handle goes, the object is disposed of, and what remains of the shared
-- handles is the weak count that they hold together.
dispose-IsCounted :
    (cb : ℕ) (h : Heap) (strong weak : ℕ → ℕ) (b : Block)
    → h.block cb ≡ some b
    → b.use_count ≡ 1
    → IsCounted h (plus_one cb strong) weak
    → let b' = record b { use_count = b.use_count - 1 } in
      IsCounted (dispose cb b' (store cb b' h)) strong (plus_one cb weak)
unfolding dispose
dispose-IsCounted cb h strong weak b e one c = record {
  counts = λ a. ground (arith, c.counts a, c.counts cb);
  fresh = λ a le. ground (arith, c.fresh a, c.fresh cb);
}

pub dec_use_count-IsCounted :
    (cb : ℕ) (h : Heap) (strong weak : ℕ → ℕ)
    → IsCounted h (plus_one cb strong) weak
    → (h' : Heap) × (dec_use_count cb h ≡ some h') × IsCounted h' strong weak
unfolding dec_use_count load
dec_use_count-IsCounted cb h strong weak c = elim (Option-cases (h.block cb)) [
  | inl e ↦ absurd (ground (arith, c.counts cb))
  | inr (b, e) ↦ elim (Bool-cases (b.use_count == 1)) [
    | inr more ↦ (
      store cb (record b { use_count = b.use_count - 1 }) h,
      ground (arith, c.counts cb),
      record {
        counts = λ a. ground (arith, c.counts a, c.counts cb);
        fresh = λ a le. ground (arith, c.fresh a, c.fresh cb);
      },
    )
    | inl last ↦
        let b' = record b { use_count = b.use_count - 1 } in
        let (h', step, c') =
          dec_weak_count-IsCounted cb (dispose cb b' (store cb b' h)) strong weak
            (dispose-IsCounted cb h strong weak b e (ground arith) c) in
        (h', ground (arith, c.counts cb), c')
  ]
]

lock_loop-zero : (failures cb : ℕ) (h : Heap) → lock_loop failures 0 cb h ≡ some (h, false)
unfolding lock_loop
lock_loop-zero zero cb h = refl
lock_loop-zero (suc failures) cb h = refl

lock_loop-pos :
    (failures cb : ℕ) (h : Heap) (b : Block)
    → h.block cb ≡ some b
    → b.alive ≡ true
    → 0 < b.use_count
    → lock_loop failures b.use_count cb h
      ≡ some (store cb (record b { use_count = b.use_count + 1 }) h, true)
unfolding lock_loop load
lock_loop-pos zero cb h b e live pos = ground arith
lock_loop-pos (suc failures) cb h b e live pos =
    ground (arith, lock_loop-pos failures cb h b e live pos)

-- lock_use_count counts one more shared handle exactly when there is one, whatever spurious
-- failures the exchange has.
pub lock_use_count-IsCounted :
    (failures cb : ℕ) (h : Heap) (strong weak : ℕ → ℕ)
    → IsCounted h strong weak
    → 0 < weak cb
    → (h' : Heap) × (lock_use_count failures cb h ≡ some (h', not (strong cb == 0)))
      × IsCounted h' (if strong cb == 0 then strong else plus_one cb strong) weak
unfolding lock_use_count load
lock_use_count-IsCounted failures cb h strong weak c pos = elim (Option-cases (h.block cb)) [
  | inl e ↦ absurd (ground (arith, c.counts cb))
  | inr (b, e) ↦ elim (Bool-cases (strong cb == 0)) [
    | inl gone ↦ rw gone (h, ground (arith, c.counts cb, lock_loop-zero failures cb h), c)
    | inr held ↦ rw held (
      store cb (record b { use_count = b.use_count + 1 }) h,
      ground (arith, c.counts cb, lock_loop-pos failures cb h b e),
      record {
        counts = λ a. ground (arith, c.counts a, c.counts cb);
        fresh = λ a le. ground (arith, c.fresh a, c.fresh cb);
      },
    )
  ]
]

-- The census may be stated in any way.
pub IsCounted-ext :
    (h : Heap) (strong strong' weak weak' : ℕ → ℕ)
    → ((a : ℕ) → strong a ≡ strong' a)
    → ((a : ℕ) → weak a ≡ weak' a)
    → IsCounted h strong weak
    → IsCounted h strong' weak'
IsCounted-ext h strong strong' weak weak' e f c = record {
  counts = λ a. ground (arith, c.counts a, e a, f a);
  fresh = c.fresh;
}
