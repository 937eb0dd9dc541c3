-- ===== src/Ring/Invariant.antt =====
-- The invariant of the two threads of null/spsc_ring_buffer.h, kept by every access.
use native.Mathlib.Nat.{mod-eq_of_lt, mod-lt}
use cc_snippets.Prelude.{
  ℕ, zero, suc, ◌+◌, ◌%◌, ◌^◌, ◌<◌, ◌≡◌, inl, inr, refl, sym, ap, ◌∙◌, List, [], ◌∷◌, ◌++◌, arith,
  set, get_or, length-replicate, append_assoc, Bool-cases, ◌==◌,
}
use cc_snippets.Ring.{Ring, slots}
use cc_snippets.Ring.Machine.{
  Machine, Producer, Consumer, Event, produce, consume, producer_step, consumer_step, step, run,
  start,
}
use cc_snippets.Ring.Window.{
  window, window-write, window-pop, get_or-set_same, get_or-set_other, add-mod-suc,
}
use cc_snippets.Ring.Slots.{
  Cells, next-slot, next-head, lt_of_next-ne, pos_of_tail-ne, head-ne-tail, write-Cells, head_in,
}

module _ {ℓ} {A : Type ℓ} (capacity : ℕ) (blank : A) where
  abbrev pub ProducerAt : Ring A → ℕ → Producer A → Type ℓ
  ProducerAt r count Producer.idle = Unit
  ProducerAt r count (Producer.checking item curr_head next_head) =
      (curr_head ≡ r.head) × (next_head ≡ (r.head + 1) % (capacity + 1)) × Unit {ℓ}
  ProducerAt r count (Producer.writing item curr_head next_head) =
      (curr_head ≡ r.head)
      × (next_head ≡ (r.head + 1) % (capacity + 1))
      × (count < capacity)
      × Unit {ℓ}
  ProducerAt r count (Producer.publishing item next_head) =
      (get_or r.buffer r.head blank ≡ item)
      × (next_head ≡ (r.head + 1) % (capacity + 1))
      × (count < capacity)

  abbrev pub ConsumerAt : Ring A → ℕ → Consumer A → Type ℓ
  ConsumerAt r count Consumer.idle = Unit
  ConsumerAt r count (Consumer.checking curr_tail) = (curr_tail ≡ r.tail) × Unit {ℓ}
  ConsumerAt r count (Consumer.reading curr_tail) = (curr_tail ≡ r.tail) × (0 < count) × Unit {ℓ}
  ConsumerAt r count (Consumer.retiring elem curr_tail) =
      (get_or r.buffer r.tail blank ≡ elem) × (curr_tail ≡ r.tail) × (0 < count)

  pub record Inv (m : Machine A) : Type ℓ where
    pub count : ℕ
    pub cells : Cells capacity blank m.ring count
    pub fifo : m.pushed ≡ m.popped ++ window blank m.ring.buffer (capacity + 1) m.ring.tail count
    pub producing : ProducerAt m.ring count m.producer
    pub consuming : ConsumerAt m.ring count m.consumer

  module _ (small : capacity + 1 < 2 ^ 64) where
    write-ConsumerAt :
        (r : Ring A) (n : ℕ) (x : A) (q : Consumer A)
        → Cells capacity blank r n
        → n < capacity
        → ConsumerAt r n q
        → ConsumerAt (record r { buffer = set r.buffer r.head x }) n q
    write-ConsumerAt r n x Consumer.idle c lt q = tt
    write-ConsumerAt r n x (Consumer.checking t) c lt q = q
    write-ConsumerAt r n x (Consumer.reading t) c lt q = q
    write-ConsumerAt r n x (Consumer.retiring y t) c lt q = (
      get_or-set_other blank r.buffer r.head r.tail x
            (head-ne-tail capacity blank small r n c (omega arith) q.2)
          ∙ q.0,
      q.1,
      q.2,
    )

    grow-ConsumerAt :
        (r : Ring A) (n k : ℕ) (q : Consumer A)
        → ConsumerAt r n q
        → ConsumerAt (record r { head = k }) (suc n) q
    grow-ConsumerAt r n k Consumer.idle q = tt
    grow-ConsumerAt r n k (Consumer.checking t) q = q
    grow-ConsumerAt r n k (Consumer.reading t) q = (q.0, omega arith, tt)
    grow-ConsumerAt r n k (Consumer.retiring y t) q = (q.0, q.1, omega arith)

    shrink-ProducerAt :
        (r : Ring A) (n k : ℕ) (p : Producer A)
        → ProducerAt r (suc n) p
        → ProducerAt (record r { tail = k }) n p
    shrink-ProducerAt r n k Producer.idle p = tt
    shrink-ProducerAt r n k (Producer.checking x h j) p = p
    shrink-ProducerAt r n k (Producer.writing x h j) p = (p.0, p.1, omega arith, tt)
    shrink-ProducerAt r n k (Producer.publishing x j) p = (p.0, p.1, omega arith)

    -- Each access of the producer keeps the invariant.
    producer_step-Inv :
        (m : Machine A) (n : ℕ) (p : Producer A) (item : A)
        → Cells capacity blank m.ring n
        → m.pushed ≡ m.popped ++ window blank m.ring.buffer (capacity + 1) m.ring.tail n
        → ProducerAt m.ring n p
        → ConsumerAt m.ring n m.consumer
        → Inv (producer_step capacity blank m p item)
    unfolding producer_step window
    producer_step-Inv m n Producer.idle item c f p q = record {
      count = n;
      cells = c;
      fifo = f;
      producing = (
        refl,
        next-slot capacity m.ring.head small (head_in capacity blank small m.ring n c),
        tt,
      );
      consuming = q;
    }
    producer_step-Inv m n (Producer.checking x h k) item c f p q =
        elim (Bool-cases (k == m.ring.tail)) [
          | inl full ↦
              rw full (record { count = n; cells = c; fifo = f; producing = tt; consuming = q })
          | inr free ↦ rw free (record {
            count = n;
            cells = c;
            fifo = f;
            producing =
                (p.0, p.1, lt_of_next-ne capacity blank small m.ring n c (λ e. ground arith), tt);
            consuming = q;
          })
        ]
    producer_step-Inv m n (Producer.writing x h k) item c f p q = rw p.0 (record {
      count = n;
      cells = write-Cells capacity blank small m.ring n x c;
      fifo = rw (c.head_at) (
          rw
            (window-write blank m.ring.buffer (capacity + 1) m.ring.tail n x c.tail_in
              (omega arith))
            f);
      producing = (
        get_or-set_same blank m.ring.buffer m.ring.head x
            (rw c.storage (head_in capacity blank small m.ring n c)),
        p.1,
        p.2,
      );
      consuming = write-ConsumerAt m.ring n x m.consumer c p.2 q;
    })
    producer_step-Inv m n (Producer.publishing x k) item c f p q = record {
      count = suc n;
      cells = record {
        room = omega arith;
        tail_in = c.tail_in;
        storage = c.storage;
        head_at = p.1 ∙ next-head capacity blank small m.ring n c;
      };
      fifo = rw f (
          append_assoc m.popped (window blank m.ring.buffer (capacity + 1) m.ring.tail n) (x ∷ [])
          ∙ ap
              (λ v. m.popped ++ (window blank m.ring.buffer (capacity + 1) m.ring.tail n ++ v ∷ []))
              (sym (ap (λ i. get_or m.ring.buffer i blank) (sym c.head_at) ∙ p.0)));
      producing = tt;
      consuming = grow-ConsumerAt m.ring n k m.consumer q;
    }

    consumer_step-Inv :
        (m : Machine A) (n : ℕ) (q : Consumer A)
        → Cells capacity blank m.ring n
        → m.pushed ≡ m.popped ++ window blank m.ring.buffer (capacity + 1) m.ring.tail n
        → ProducerAt m.ring n m.producer
        → ConsumerAt m.ring n q
        → Inv (consumer_step capacity blank m q)
    unfolding consumer_step
    consumer_step-Inv m n Consumer.idle c f p q = record {
      count = n;
      cells = c;
      fifo = f;
      producing = p;
      consuming = (refl, tt);
    }
    consumer_step-Inv m n (Consumer.checking t) c f p q = elim (Bool-cases (t == m.ring.head)) [
      | inl empty ↦
          rw empty (record { count = n; cells = c; fifo = f; producing = p; consuming = tt })
      | inr more ↦ rw more (record {
        count = n;
        cells = c;
        fifo = f;
        producing = p;
        consuming = (q.0, pos_of_tail-ne capacity blank small m.ring n c (λ e. ground arith), tt);
      })
    ]
    consumer_step-Inv m n (Consumer.reading t) c f p q = record {
      count = n;
      cells = c;
      fifo = f;
      producing = p;
      consuming = (ap (λ i. get_or m.ring.buffer i blank) (sym q.0), q.0, q.1);
    }
    consumer_step-Inv m zero (Consumer.retiring x t) c f p q = absurd (omega arith)
    consumer_step-Inv m (suc n) (Consumer.retiring x t) c f p q =
        rw (q.1, next-slot capacity m.ring.tail small c.tail_in)
          (record {
            count = n;
            cells = record {
              room = omega arith;
              tail_in = mod-lt (m.ring.tail + 1) (omega arith);
              storage = c.storage;
              head_at = c.head_at ∙ sym (add-mod-suc (capacity + 1) m.ring.tail n);
            };
            fifo =
                f
                ∙ rw (window-pop blank m.ring.buffer (capacity + 1) m.ring.tail n c.tail_in, q.0)
                    (sym (
                      append_assoc m.popped (x ∷ []) (
                        window blank m.ring.buffer (capacity + 1)
                          ((m.ring.tail + 1) % (capacity + 1)) n)));
            producing =
                shrink-ProducerAt m.ring n ((m.ring.tail + 1) % (capacity + 1)) m.producer p;
            consuming = tt;
          })

    pub step-Inv : (m : Machine A) (e : Event A) → Inv m → Inv (step capacity blank m e)
    unfolding step
    step-Inv m (produce item) v =
        producer_step-Inv m v.count m.producer item v.cells v.fifo v.producing v.consuming
    step-Inv m consume v =
        consumer_step-Inv m v.count m.consumer v.cells v.fifo v.producing v.consuming

    pub run-Inv : (m : Machine A) (es : List (Event A)) → Inv m → Inv (run capacity blank m es)
    unfolding run
    run-Inv m [] v = v
    run-Inv m (e ∷ es) v = run-Inv (step capacity blank m e) es (step-Inv m e v)

    pub start-Inv : Inv (start capacity blank)
    unfolding start window
    start-Inv = record {
      count = 0;
      cells = record {
        room = omega arith;
        tail_in = omega arith;
        storage = length-replicate (slots capacity) blank ∙ omega arith;
        head_at = omega (arith, mod-eq_of_lt {n = 0} {m = capacity + 1});
      };
      fifo = refl;
      producing = tt;
      consuming = tt;
    }
