-- ===== src/Ring/Weak/Refine.antt =====
-- Every run of null/spsc_ring_buffer.h with its orders of memory is one of the sequentially
-- consistent machine, but for loads that a call which returns false has done.
use native.Mathlib.Nat.{mod-eq_of_lt, add-mod_right}
use mathlib.Core.Path.{subst}
use cc_snippets.Prelude.{
  ℕ, zero, suc, ◌+◌, ◌-◌, ◌%◌, ◌^◌, ◌≤◌, ◌<◌, ◌≡◌, ◌≢◌, refl, sym, ap, ap₂, ◌∙◌, List, [], ◌∷◌,
  ◌++◌, ◌==◌, get_or, arith, length, length-replicate, by-if, inl, inr, ◌⊎◌,
}
use cc_snippets.Ring.{next_index, init, slots}
use cc_snippets.Ring.Machine.{
  Machine, Producer, Consumer, producer_step, consumer_step, Event, step, run, start,
}
use cc_snippets.Ring.Machine
use cc_snippets.Ring.Slots.{next-ne_of_lt, head-ne-tail}
use cc_snippets.Ring.Contents.{contents}
use cc_snippets.Ring.Threads.{run_fifo, run_race_free}
use cc_snippets.Ring.Weak.Seen.{
  ProducerSees, ConsumerSees, IsSeen, bounded_by-le, seen_tail, seen_head, two_pushes, two_pops,
  next_head_lem,
}
use cc_snippets.Ring.Weak.{
  Memory, Access, produce, consume, bounded_by, produce_in, consume_in, access, run_weak,
  start_weak,
}
use cc_snippets.Ring.Weak.Steps.{produce-IsSeen, consume-IsSeen}

module _ {ℓ} {A : Type ℓ} where
  -- A call that has only loaded an index of its own thread has not begun yet.
  unfoldable pub back_producer : Producer A → Producer A
  back_producer (Producer.checking item curr_head next_head) = Producer.idle
  back_producer p = p

  unfoldable pub back_consumer : Consumer A → Consumer A
  back_consumer (Consumer.checking curr_tail) = Consumer.idle
  back_consumer c = c

  unfoldable pub settled : Machine A → Machine A
  unfolding back_producer back_consumer
  settled m = record m { producer = back_producer m.producer; consumer = back_consumer m.consumer }

module _ {ℓ} {A : Type ℓ} (capacity : ℕ) (blank : A) (small : capacity + 1 < 2 ^ 64) where
  -- Each access is none, one or two of the machine's.
  simulate-produce :
      (x : Memory A) (p : Producer A) (item : A) (lag : ℕ)
      → x.machine.producer ≡ p
      → IsSeen capacity blank x
      → (es : List (Event A)) × (run capacity blank (settled x.machine) es
          ≡ settled (produce_in capacity blank x p item lag).machine)
  unfolding produce_in producer_step settled back_producer run step
  simulate-produce x Producer.idle item lag e v =
      ([], ap (λ q. record (settled x.machine) { producer = back_producer q }) e)
  simulate-produce x (Producer.checking y curr_head next_head) item lag e v =
      let l = bounded_by x.unseen_tails lag in
      let m = settled x.machine in
      let le : l ≤ x.unseen_tails = bounded_by-le capacity blank x.unseen_tails lag in
      let pp : (curr_head ≡ x.machine.ring.head)
          × (next_head ≡ next_index capacity x.machine.ring.head) =
        subst (ProducerSees capacity blank x.machine.ring v.count x.unseen_tails) e v.producing in
      let at = next_head_lem capacity blank small x v in
      by-if
        (λ (q : Producer A).
          (es : List (Event A)) × (run capacity blank m es
            ≡ settled (record x.machine { producer = q })))
        (next_head == get_or x.tails l 0) Producer.idle (Producer.writing y curr_head next_head)
        (λ t. ([], ap (λ q. record m { producer = back_producer q }) e))
        (λ f.
          let room = seen_tail capacity blank x v l le (λ g. ground (arith, at, pp.1, g, f)) in
          let ne =
            next-ne_of_lt capacity blank small x.machine.ring v.count v.cells
              (omega (arith, room)) in
          (
            Machine.produce y ∷ Machine.produce y ∷ [],
            two_pushes capacity blank m y (ap back_producer e) (λ g. ne (sym at ∙ g))
                ∙ ap₂ (λ a b. record m { producer = Producer.writing y a b }) (sym pp.0) (sym pp.1),
          ))
  simulate-produce x (Producer.writing y curr_head next_head) item lag e v = (
    Machine.produce item ∷ [],
    ap (λ q. producer_step capacity blank (settled x.machine) (back_producer q) item) e,
  )
  simulate-produce x (Producer.publishing y next_head) item lag e v = (
    Machine.produce item ∷ [],
    ap (λ q. producer_step capacity blank (settled x.machine) (back_producer q) item) e,
  )

  simulate-consume :
      (x : Memory A) (q : Consumer A) (lag : ℕ)
      → x.machine.consumer ≡ q
      → IsSeen capacity blank x
      → (es : List (Event A)) × (run capacity blank (settled x.machine) es
          ≡ settled (consume_in capacity blank x q lag).machine)
  unfolding consume_in consumer_step settled back_consumer run step
  simulate-consume x Consumer.idle lag e v =
      ([], ap (λ q. record (settled x.machine) { consumer = back_consumer q }) e)
  simulate-consume x (Consumer.checking curr_tail) lag e v =
      let l = bounded_by x.unseen_heads lag in
      let m = settled x.machine in
      let le : l ≤ x.unseen_heads = bounded_by-le capacity blank x.unseen_heads lag in
      let qq : curr_tail ≡ x.machine.ring.tail =
        subst (ConsumerSees capacity blank x.machine.ring v.count x.unseen_heads) e v.consuming in
      by-if
        (λ (q : Consumer A).
          (es : List (Event A)) × (run capacity blank m es
            ≡ settled (record x.machine { consumer = q })))
        (curr_tail == get_or x.heads l 0) Consumer.idle (Consumer.reading curr_tail)
        (λ t. ([], ap (λ q. record m { consumer = back_consumer q }) e))
        (λ f.
          let some = seen_head capacity blank x v l le (λ g. ground (arith, qq, g, f)) in
          let ne =
            head-ne-tail capacity blank small x.machine.ring v.count v.cells v.cells.room
              (omega (arith, some)) in
          (
            Machine.consume ∷ Machine.consume ∷ [],
            two_pops capacity blank m (ap back_consumer e) (λ g. ne (sym g))
                ∙ ap (λ a. record m { consumer = Consumer.reading a }) (sym qq),
          ))
  simulate-consume x (Consumer.reading curr_tail) lag e v = (
    Machine.consume ∷ [],
    ap (λ q. consumer_step capacity blank (settled x.machine) (back_consumer q)) e,
  )
  simulate-consume x (Consumer.retiring elem curr_tail) lag e v = (
    Machine.consume ∷ [],
    ap (λ q. consumer_step capacity blank (settled x.machine) (back_consumer q)) e,
  )

  run-append :
      (m : Machine A) (es fs : List (Event A))
      → run capacity blank m (es ++ fs) ≡ run capacity blank (run capacity blank m es) fs
  unfolding run
  run-append m [] fs = refl
  run-append m (e ∷ es) fs = run-append (step capacity blank m e) es fs

  simulate :
      (x : Memory A) (accesses : List (Access A))
      → IsSeen capacity blank x
      → (es : List (Event A)) × (run capacity blank (settled x.machine) es
          ≡ settled (run_weak capacity blank x accesses).machine)
  unfolding run_weak access run
  simulate x [] v = ([], refl)
  simulate x (produce item lag ∷ rest) v =
      let (es, p) = simulate-produce x x.machine.producer item lag refl v in
      let (fs, q) =
        simulate (produce_in capacity blank x x.machine.producer item lag) rest
          (produce-IsSeen capacity blank small x x.machine.producer item lag refl v) in
      (es ++ fs, run-append (settled x.machine) es fs ∙ (ap (λ m. run capacity blank m fs) p ∙ q))
  simulate x (consume lag ∷ rest) v =
      let (es, p) = simulate-consume x x.machine.consumer lag refl v in
      let (fs, q) =
        simulate (consume_in capacity blank x x.machine.consumer lag) rest
          (consume-IsSeen capacity blank small x x.machine.consumer lag refl v) in
      (es ++ fs, run-append (settled x.machine) es fs ∙ (ap (λ m. run capacity blank m fs) p ∙ q))

  zero_mod : (k : ℕ) → (k ≡ 0) ⊎ (k ≡ 0 + (capacity + 1)) → 0 ≡ k % (capacity + 1)
  zero_mod k (inl e) = sym (ap (λ n. n % (capacity + 1)) e ∙ mod-eq_of_lt (omega arith))
  zero_mod k (inr e) = sym (rw (e, add-mod_right) (mod-eq_of_lt (omega arith)))

  start-IsSeen : IsSeen capacity blank (start_weak capacity blank)
  unfolding start_weak start init
  start-IsSeen = record {
    count = 0;
    cells = record {
      room = omega arith;
      tail_in = omega arith;
      storage = length-replicate (slots capacity) blank ∙ omega arith;
      head_at = zero_mod (0 + 0) (inl (omega arith));
    };
    heads_at = heads;
    tails_at = tails;
    pushes = omega arith;
    pops = omega arith;
    producing = tt;
    consuming = tt;
  }
    where
      heads : (l : ℕ) → l ≤ 0 → get_or (0 ∷ []) l 0 ≡ (0 + (0 - l)) % (capacity + 1)
      heads zero k = zero_mod (0 + (0 - 0)) (inl (omega arith))
      heads (suc l) k = absurd (omega arith)

      tails :
          (l : ℕ) → l ≤ 0 → get_or (0 ∷ []) l 0 ≡ (0 + (capacity + 1 - (0 + l))) % (capacity + 1)
      tails zero k = zero_mod (0 + (capacity + 1 - (0 + 0))) (inr (omega arith))
      tails (suc l) k = absurd (omega arith)

  -- Every run with the orders of memory of the source, from a new ring whose Capacity + 1 fits size_t,
  -- leaves the ring, the elements pushed and popped and the threads as some run of the sequentially
  -- consistent machine does, a call that has loaded no index of the other thread counting as not begun.
  pub run_weak_refines :
      (accesses : List (Access A))
      → (es : List (Event A)) × (run capacity blank (start capacity blank) es
          ≡ settled (run_weak capacity blank (start_weak capacity blank) accesses).machine)
  unfolding start_weak start settled back_producer back_consumer
  run_weak_refines accesses = simulate (start_weak capacity blank) accesses start-IsSeen

  -- In every run of the two threads with the orders of memory of the source, from a new ring whose
  -- Capacity + 1 fits size_t, whatever older values the loads of the other thread's index give, the
  -- elements pushed so far are those popped so far followed by the ring's contents, in order, and the
  -- contents are at most Capacity.
  pub run_weak_fifo :
      (accesses : List (Access A))
      → let m = (run_weak capacity blank (start_weak capacity blank) accesses).machine in
        (m.pushed ≡ m.popped ++ contents capacity blank m.ring)
        × (length (contents capacity blank m.ring) ≤ capacity)
  unfolding settled
  run_weak_fifo accesses =
      let (es, q) = run_weak_refines accesses in
      subst
        (λ (m : Machine A).
          (m.pushed ≡ m.popped ++ contents capacity blank m.ring)
          × (length (contents capacity blank m.ring) ≤ capacity))
        q (run_fifo capacity blank small es)

  -- In every run of the two threads with the orders of memory of the source, from a new ring whose
  -- Capacity + 1 fits size_t, when the producer is about to write a cell and the consumer about to
  -- read one, the cells differ and both lie in the buffer.
  pub run_weak_race_free :
      (accesses : List (Access A)) (m : Machine A) (item : A) (i k j : ℕ)
      → (run_weak capacity blank (start_weak capacity blank) accesses).machine ≡ m
      → m.producer ≡ Producer.writing item i k
      → m.consumer ≡ Consumer.reading j
      → (i ≢ j) × (i < length m.ring.buffer) × (j < length m.ring.buffer)
  unfolding settled back_producer back_consumer
  run_weak_race_free accesses m item i k j e p c =
      let (es, q) = run_weak_refines accesses in
      run_race_free capacity blank small es (settled m) item i k j (q ∙ ap settled e)
        (ap back_producer p) (ap back_consumer c)
