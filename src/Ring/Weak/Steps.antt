-- ===== src/Ring/Weak/Steps.antt =====
-- An access of the ring of null/spsc_ring_buffer.h keeps what the threads have seen.
use mathlib.Core.Path.{subst}
use cc_snippets.Prelude.{
  ℕ, ◌+◌, ◌-◌, ◌%◌, ◌^◌, ◌≤◌, ◌<◌, ◌≡◌, refl, ◌∙◌, List, ◌==◌, set, get_or, arith, length-set,
  by-if,
}
use cc_snippets.Ring.{Ring, next_index}
use cc_snippets.Ring.Machine.{Producer, Consumer, producer_step, consumer_step}
use cc_snippets.Ring.Weak.Seen.{
  ProducerSees, ConsumerSees, IsSeen, bounded_by-le, seen_tail, seen_head, next_head_lem,
  publish-IsSeen, retire-IsSeen,
}
use cc_snippets.Ring.Weak.{Memory, bounded_by, produce_in, consume_in}

module _ {ℓ} {A : Type ℓ} (capacity : ℕ) (blank : A) (small : capacity + 1 < 2 ^ 64) where
  write-ConsumerSees :
      (r : Ring A) (buffer : List A) (count unseen : ℕ) (q : Consumer A)
      → ConsumerSees capacity blank r count unseen q
      → ConsumerSees capacity blank (record r { buffer = buffer }) count unseen q
  write-ConsumerSees r b n u Consumer.idle v = tt
  write-ConsumerSees r b n u (Consumer.checking t) v = v
  write-ConsumerSees r b n u (Consumer.reading t) v = v
  write-ConsumerSees r b n u (Consumer.retiring y t) v = v

  pub produce-IsSeen :
      (x : Memory A) (p : Producer A) (item : A) (lag : ℕ)
      → x.machine.producer ≡ p
      → IsSeen capacity blank x
      → IsSeen capacity blank (produce_in capacity blank x p item lag)
  unfolding produce_in producer_step
  produce-IsSeen x Producer.idle item lag e v = record {
    count = v.count;
    cells = v.cells;
    heads_at = v.heads_at;
    tails_at = v.tails_at;
    pushes = v.pushes;
    pops = v.pops;
    producing = (refl, refl);
    consuming = v.consuming;
  }
  produce-IsSeen x (Producer.checking y curr_head next_head) item lag e v =
      let l = bounded_by x.unseen_tails lag in
      let le : l ≤ x.unseen_tails = bounded_by-le capacity blank x.unseen_tails lag in
      let pp : (curr_head ≡ x.machine.ring.head)
          × (next_head ≡ next_index capacity x.machine.ring.head) =
        subst (ProducerSees capacity blank x.machine.ring v.count x.unseen_tails) e v.producing in
      let seen : (q : Producer A)
          → ProducerSees capacity blank x.machine.ring v.count l q
          → IsSeen capacity blank
              (record x { machine = record (x.machine) { producer = q }; unseen_tails = l }) =
        λ q h. record {
          count = v.count;
          cells = v.cells;
          heads_at = v.heads_at;
          tails_at = λ k b. v.tails_at k (omega (arith, b, le));
          pushes = v.pushes;
          pops = omega (arith, v.pops, le);
          producing = h;
          consuming = v.consuming;
        } in
      let at : next_head ≡ (x.machine.ring.head + 1) % (capacity + 1) =
        pp.1 ∙ next_head_lem capacity blank small x v in
      by-if
        (λ (q : Producer A).
          IsSeen capacity blank
            (record x { machine = record (x.machine) { producer = q }; unseen_tails = l }))
        (next_head == get_or x.tails l 0) Producer.idle (Producer.writing y curr_head next_head)
        (λ t. seen Producer.idle tt)
        (λ f.
          seen (Producer.writing y curr_head next_head)
            (at, seen_tail capacity blank x v l le (λ g. ground (arith, at, g, f))))
  produce-IsSeen x (Producer.writing y curr_head next_head) item lag e v =
      let pp : (next_head ≡ (x.machine.ring.head + 1) % (capacity + 1))
          × (v.count + x.unseen_tails < capacity) =
        subst (ProducerSees capacity blank x.machine.ring v.count x.unseen_tails) e v.producing in
      record {
        count = v.count;
        cells = record {
          room = v.cells.room;
          tail_in = v.cells.tail_in;
          storage = length-set x.machine.ring.buffer curr_head y ∙ v.cells.storage;
          head_at = v.cells.head_at;
        };
        heads_at = v.heads_at;
        tails_at = v.tails_at;
        pushes = v.pushes;
        pops = v.pops;
        producing = pp;
        consuming =
            write-ConsumerSees x.machine.ring (set x.machine.ring.buffer curr_head y) v.count
              x.unseen_heads x.machine.consumer v.consuming;
      }
  produce-IsSeen x (Producer.publishing y next_head) item lag e v =
      let pp : (next_head ≡ (x.machine.ring.head + 1) % (capacity + 1))
          × (v.count + x.unseen_tails < capacity) =
        subst (ProducerSees capacity blank x.machine.ring v.count x.unseen_tails) e v.producing in
      publish-IsSeen capacity blank small x y item next_head lag v pp.0 pp.1

  pub consume-IsSeen :
      (x : Memory A) (q : Consumer A) (lag : ℕ)
      → x.machine.consumer ≡ q
      → IsSeen capacity blank x
      → IsSeen capacity blank (consume_in capacity blank x q lag)
  unfolding consume_in consumer_step
  consume-IsSeen x Consumer.idle lag e v = record {
    count = v.count;
    cells = v.cells;
    heads_at = v.heads_at;
    tails_at = v.tails_at;
    pushes = v.pushes;
    pops = v.pops;
    producing = v.producing;
    consuming = refl;
  }
  consume-IsSeen x (Consumer.checking curr_tail) lag e v =
      let l = bounded_by x.unseen_heads lag in
      let le : l ≤ x.unseen_heads = bounded_by-le capacity blank x.unseen_heads lag in
      let qq : curr_tail ≡ x.machine.ring.tail =
        subst (ConsumerSees capacity blank x.machine.ring v.count x.unseen_heads) e v.consuming in
      let seen : (q : Consumer A)
          → ConsumerSees capacity blank x.machine.ring v.count l q
          → IsSeen capacity blank
              (record x { machine = record (x.machine) { consumer = q }; unseen_heads = l }) =
        λ q h. record {
          count = v.count;
          cells = v.cells;
          heads_at = λ k b. v.heads_at k (omega (arith, b, le));
          tails_at = v.tails_at;
          pushes = omega (arith, v.pushes, le);
          pops = v.pops;
          producing = v.producing;
          consuming = h;
        } in
      by-if
        (λ (q : Consumer A).
          IsSeen capacity blank
            (record x { machine = record (x.machine) { consumer = q }; unseen_heads = l }))
        (curr_tail == get_or x.heads l 0) Consumer.idle (Consumer.reading curr_tail)
        (λ t. seen Consumer.idle tt)
        (λ f.
          seen (Consumer.reading curr_tail)
            (qq, seen_head capacity blank x v l le (λ g. ground (arith, qq, g, f))))
  consume-IsSeen x (Consumer.reading curr_tail) lag e v =
      let qq : (curr_tail ≡ x.machine.ring.tail) × (x.unseen_heads < v.count) =
        subst (ConsumerSees capacity blank x.machine.ring v.count x.unseen_heads) e v.consuming in
      record {
        count = v.count;
        cells = v.cells;
        heads_at = v.heads_at;
        tails_at = v.tails_at;
        pushes = v.pushes;
        pops = v.pops;
        producing = v.producing;
        consuming = qq;
      }
  consume-IsSeen x (Consumer.retiring elem curr_tail) lag e v =
      let qq : (curr_tail ≡ x.machine.ring.tail) × (x.unseen_heads < v.count) =
        subst (ConsumerSees capacity blank x.machine.ring v.count x.unseen_heads) e v.consuming in
      retire-IsSeen capacity blank small x elem curr_tail lag (v.count - 1) v qq.0
        (omega (arith, qq.1)) (omega (arith, qq.1))
