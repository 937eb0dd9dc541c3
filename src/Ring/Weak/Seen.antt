-- ===== src/Ring/Weak/Seen.antt =====
-- What the threads of null/spsc_ring_buffer.h have seen of each other's index, with the orders of
-- memory that it asks for.
use native.Mathlib.Nat.{mod-eq_of_lt, mod-add-mod, add-mod_right, mod-lt, add-zero}
use mathlib.Core.Path.{subst}
use cc_snippets.Prelude.{
  ℕ, zero, suc, ◌+◌, ◌-◌, ◌%◌, ◌^◌, ◌≤◌, ◌<◌, ◌≡◌, ◌≢◌, sym, ap, ◌∙◌, [], ◌∷◌, get_or, arith,
  dec_lt,
}
use cc_snippets.Ring.{Ring, next_index}
use cc_snippets.Ring.Machine.{
  Machine, Producer, Consumer, producer_step, consumer_step, Event, step, run, start,
}
use cc_snippets.Ring.Machine
use cc_snippets.Ring.Window.{add-mod-suc}
use cc_snippets.Ring.Slots.{Cells, next-slot, head_in, next-head}
use cc_snippets.Ring.Weak.{Memory, bounded_by, produce_in, consume_in}

module _ {ℓ} {A : Type ℓ} (capacity : ℕ) (blank : A) where
  -- What the locals of push say, and how much room it has seen.
  abbrev pub ProducerSees : Ring A → ℕ → ℕ → Producer A → Type 0
  ProducerSees r count unseen Producer.idle = Unit
  ProducerSees r count unseen (Producer.checking item curr_head next_head) =
      (curr_head ≡ r.head) × (next_head ≡ next_index capacity r.head)
  ProducerSees r count unseen (Producer.writing item curr_head next_head) =
      (next_head ≡ (r.head + 1) % (capacity + 1)) × (count + unseen < capacity)
  ProducerSees r count unseen (Producer.publishing item next_head) =
      (next_head ≡ (r.head + 1) % (capacity + 1)) × (count + unseen < capacity)

  abbrev pub ConsumerSees : Ring A → ℕ → ℕ → Consumer A → Type 0
  ConsumerSees r count unseen Consumer.idle = Unit
  ConsumerSees r count unseen (Consumer.checking curr_tail) = curr_tail ≡ r.tail
  ConsumerSees r count unseen (Consumer.reading curr_tail) = (curr_tail ≡ r.tail) × (unseen < count)
  ConsumerSees r count unseen (Consumer.retiring elem curr_tail) =
      (curr_tail ≡ r.tail) × (unseen < count)

  pub record IsSeen (x : Memory A) : Type ℓ where
    pub count : ℕ
    pub cells : Cells capacity blank x.machine.ring count
    pub heads_at :
        (l : ℕ)
        → l ≤ x.unseen_heads
        → get_or x.heads l 0 ≡ (x.machine.ring.tail + (count - l)) % (capacity + 1)
    pub tails_at :
        (l : ℕ)
        → l ≤ x.unseen_tails
        → get_or x.tails l 0 ≡ (x.machine.ring.head + (capacity + 1 - (count + l))) % (capacity + 1)
    pub pushes : x.unseen_heads ≤ count
    pub pops : count + x.unseen_tails ≤ capacity
    pub producing : ProducerSees x.machine.ring count x.unseen_tails x.machine.producer
    pub consuming : ConsumerSees x.machine.ring count x.unseen_heads x.machine.consumer

  pub bounded_by-le : (u l : ℕ) → bounded_by u l ≤ u
  unfolding bounded_by
  bounded_by-le u l = ground arith

  -- A load that tells a producer of room, however old its value, and one that tells a consumer of
  -- an element.
  pub seen_tail :
      (x : Memory A) (v : IsSeen x) (l : ℕ)
      → l ≤ x.unseen_tails
      → (x.machine.ring.head + 1) % (capacity + 1) ≢ get_or x.tails l 0
      → v.count + l < capacity
  seen_tail x v l h n = elim (dec_lt (v.count + l) capacity) [
    | yes p ↦ p
    | no p ↦
        let e : capacity + 1 - (v.count + l) ≡ 1 = omega (arith, v.pops) in
        absurd (n (sym (v.tails_at l h ∙ ap (λ k. (x.machine.ring.head + k) % (capacity + 1)) e)))
  ]

  pub seen_head :
      (x : Memory A) (v : IsSeen x) (l : ℕ)
      → l ≤ x.unseen_heads
      → x.machine.ring.tail ≢ get_or x.heads l 0
      → l < v.count
  seen_head x v l h n = elim (dec_lt l v.count) [
    | yes p ↦ p
    | no p ↦
        let e : v.count - l ≡ 0 = omega arith in
        absurd (n (sym (v.heads_at l h ∙ rw (e, add-zero) (mod-eq_of_lt v.cells.tail_in))))
  ]

  -- What a producer and a consumer alone do from outside a call, when they find room and an element.
  pub two_pushes :
      (m : Machine A) (item : A)
      → m.producer ≡ Producer.idle
      → next_index capacity m.ring.head ≢ m.ring.tail
      → run capacity blank m (Machine.produce item ∷ Machine.produce item ∷ []) ≡ record m {
        producer = Producer.writing item m.ring.head (next_index capacity m.ring.head);
      }
  unfolding run step producer_step
  two_pushes m item e n = ground arith

  pub two_pops :
      (m : Machine A)
      → m.consumer ≡ Consumer.idle
      → m.ring.tail ≢ m.ring.head
      → run capacity blank m (Machine.consume ∷ Machine.consume ∷ [])
        ≡ record m { consumer = Consumer.reading m.ring.tail }
  unfolding run step consumer_step
  two_pops m e n = ground arith

  module _ (small : capacity + 1 < 2 ^ 64) where
    pub next_head_lem :
        (x : Memory A) (v : IsSeen x)
        → next_index capacity x.machine.ring.head ≡ (x.machine.ring.head + 1) % (capacity + 1)
    next_head_lem x v =
        next-slot capacity x.machine.ring.head small
          (head_in capacity blank small x.machine.ring v.count v.cells)

    grow-ConsumerSees :
        (r : Ring A) (head count unseen : ℕ) (q : Consumer A)
        → ConsumerSees r count unseen q
        → ConsumerSees (record r { head = head }) (suc count) (unseen + 1) q
    grow-ConsumerSees r h n u Consumer.idle v = tt
    grow-ConsumerSees r h n u (Consumer.checking t) v = v
    grow-ConsumerSees r h n u (Consumer.reading t) (e, l) = (e, omega (arith, l))
    grow-ConsumerSees r h n u (Consumer.retiring y t) (e, l) = (e, omega (arith, l))

    pub publish-IsSeen :
        (x : Memory A) (item other : A) (next_head lag : ℕ) (v : IsSeen x)
        → next_head ≡ (x.machine.ring.head + 1) % (capacity + 1)
        → v.count + x.unseen_tails < capacity
        → IsSeen (produce_in capacity blank x (Producer.publishing item next_head) other lag)
    unfolding produce_in producer_step
    publish-IsSeen x item other next_head lag v e lt = record {
      count = suc v.count;
      cells = record {
        room = omega (arith, lt);
        tail_in = v.cells.tail_in;
        storage = v.cells.storage;
        head_at = h;
      };
      heads_at = λ l k. head_again l k;
      tails_at = λ l k. v.tails_at l k ∙ sym (tail_again l k);
      pushes = omega (arith, v.pushes);
      pops = omega (arith, lt);
      producing = tt;
      consuming =
          grow-ConsumerSees x.machine.ring next_head v.count x.unseen_heads x.machine.consumer
            v.consuming;
    }
      where
        h : next_head ≡ (x.machine.ring.tail + suc v.count) % (capacity + 1)
        h = e ∙ next-head capacity blank small x.machine.ring v.count v.cells

        head_again :
            (l : ℕ)
            → l ≤ x.unseen_heads + 1
            → get_or (next_head ∷ x.heads) l 0
              ≡ (x.machine.ring.tail + (suc v.count - l)) % (capacity + 1)
        head_again zero k = h ∙ ap (λ n. (x.machine.ring.tail + n) % (capacity + 1)) (omega arith)
        head_again (suc l) k =
            v.heads_at l (omega arith)
            ∙ ap (λ n. (x.machine.ring.tail + n) % (capacity + 1)) (omega arith)

        tail_again :
            (l : ℕ)
            → l ≤ x.unseen_tails
            → (next_head + (capacity + 1 - (suc v.count + l))) % (capacity + 1)
              ≡ (x.machine.ring.head + (capacity + 1 - (v.count + l))) % (capacity + 1)
        tail_again l k =
            ap (λ n. (n + (capacity + 1 - (suc v.count + l))) % (capacity + 1)) e
            ∙ (add-mod-suc (capacity + 1) x.machine.ring.head (capacity + 1 - (suc v.count + l))
                ∙ ap (λ n. (x.machine.ring.head + n) % (capacity + 1)) (omega arith))

    shrink-ProducerSees :
        (r : Ring A) (tail count unseen : ℕ) (p : Producer A)
        → ProducerSees r (suc count) unseen p
        → ProducerSees (record r { tail = tail }) count (unseen + 1) p
    shrink-ProducerSees r t n u Producer.idle v = tt
    shrink-ProducerSees r t n u (Producer.checking y h k) v = v
    shrink-ProducerSees r t n u (Producer.writing y h k) (e, l) = (e, omega (arith, l))
    shrink-ProducerSees r t n u (Producer.publishing y k) (e, l) = (e, omega (arith, l))

    pub retire-IsSeen :
        (x : Memory A) (elem : A) (curr_tail lag n : ℕ) (v : IsSeen x)
        → curr_tail ≡ x.machine.ring.tail
        → v.count ≡ suc n
        → x.unseen_heads ≤ n
        → IsSeen (consume_in capacity blank x (Consumer.retiring elem curr_tail) lag)
    unfolding consume_in consumer_step
    retire-IsSeen x elem curr_tail lag n v e c lt = record {
      count = n;
      cells = record {
        room = omega (arith, v.cells.room, c);
        tail_in = rw t (mod-lt (x.machine.ring.tail + 1) (omega arith));
        storage = v.cells.storage;
        head_at = head_here;
      };
      heads_at = λ l k. v.heads_at l k ∙ sym (head_again l k);
      tails_at = λ l k. tail_again l k;
      pushes = lt;
      pops = omega (arith, v.pops, c);
      producing =
          shrink-ProducerSees x.machine.ring (next_index capacity curr_tail) n x.unseen_tails
            x.machine.producer
            (subst (λ k. ProducerSees x.machine.ring k x.unseen_tails x.machine.producer) c
              v.producing);
      consuming = tt;
    }
      where
        t : next_index capacity curr_tail ≡ (x.machine.ring.tail + 1) % (capacity + 1)
        t =
            ap (next_index capacity) e
            ∙ next-slot capacity x.machine.ring.tail small v.cells.tail_in

        moved :
            (k : ℕ)
            → (next_index capacity curr_tail + k) % (capacity + 1)
              ≡ (x.machine.ring.tail + suc k) % (capacity + 1)
        moved k =
            ap (λ i. (i + k) % (capacity + 1)) t ∙ add-mod-suc (capacity + 1) x.machine.ring.tail k

        head_here : x.machine.ring.head ≡ (next_index capacity curr_tail + n) % (capacity + 1)
        head_here =
            v.cells.head_at
            ∙ (ap (λ k. (x.machine.ring.tail + k) % (capacity + 1)) c ∙ sym (moved n))

        head_again :
            (l : ℕ)
            → l ≤ x.unseen_heads
            → (next_index capacity curr_tail + (n - l)) % (capacity + 1)
              ≡ (x.machine.ring.tail + (v.count - l)) % (capacity + 1)
        head_again l k =
            moved (n - l)
            ∙ ap (λ i. (x.machine.ring.tail + i) % (capacity + 1)) (omega (arith, c, lt))

        around :
            (i : ℕ)
            → i < capacity + 1
            → ((i + n) % (capacity + 1) + (capacity + 1 - n)) % (capacity + 1) ≡ i
        around i h =
            let e : i + n + (capacity + 1 - n) ≡ i + (capacity + 1) =
              omega (arith, v.cells.room, c) in
            rw (mod-add-mod, e, add-mod_right) (mod-eq_of_lt h)

        tail_again :
            (l : ℕ)
            → l ≤ x.unseen_tails + 1
            → get_or (next_index capacity curr_tail ∷ x.tails) l 0
              ≡ (x.machine.ring.head + (capacity + 1 - (n + l))) % (capacity + 1)
        tail_again zero k = sym (
            ap (λ i. (i + (capacity + 1 - (n + 0))) % (capacity + 1)) head_here
            ∙ (ap (λ i. ((next_index capacity curr_tail + n) % (capacity + 1) + i) % (capacity + 1))
                  (omega arith)
                ∙ around (next_index capacity curr_tail)
                    (rw t (mod-lt (x.machine.ring.tail + 1) (omega arith)))))
        tail_again (suc l) k =
            v.tails_at l (omega arith)
            ∙ ap (λ i. (x.machine.ring.head + i) % (capacity + 1)) (omega (arith, c))
