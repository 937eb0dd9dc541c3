-- ===== src/Ring/Weak.antt =====
-- null/spsc_ring_buffer.h with the orders of memory that it asks for: an acquire load of the other
-- thread's index may give an older value of it, though none older than the one it gave before. What
-- a thread then reads or writes of the buffer is ordered by the release and acquire of the value that
-- it saw, so the buffer is one memory as in the sequentially consistent machine.
pub mod Seen
pub mod Steps
pub mod Refine
mod Tests
use native.Mathlib.Nat.{mod-eq_of_lt, mod-add-mod, add-mod_right, mod-lt}
use cc_snippets.Prelude.{
  ℕ, zero, suc, ◌+◌, ◌-◌, ◌%◌, ◌^◌, ◌≤◌, ◌<◌, ◌≡◌, ◌≢◌, refl, sym, ap, ◌∙◌, List, [], ◌∷◌, ◌++◌,
  ◌==◌, if◌then◌else◌, leb, set, get_or, arith, length, length-set, by-if, Bool-cases, inl, inr,
}
use cc_snippets.Ring.{Ring, next_index, init}
use cc_snippets.Ring.Machine.{Machine, Producer, Consumer, producer_step, consumer_step}
use cc_snippets.Ring.Machine

-- `heads` and `tails` are the values that the atomic indices have had, the last first; `unseen_tails`
-- are the stores of `tail_` since the one that the producer has seen, and `unseen_heads` those of
-- `head_` for the consumer.
pub record Memory {ℓ} (A : Type ℓ) : Type ℓ where
  pub machine : Machine A
  pub heads : List ℕ
  pub tails : List ℕ
  pub unseen_heads : ℕ
  pub unseen_tails : ℕ

-- One access of one thread; a load of the other's index gives the value so many stores ago.
pub data Access {ℓ} (A : Type ℓ) : Type ℓ where
  produce : (item : A) (lag : ℕ) → Access A
  consume : (lag : ℕ) → Access A

-- no older value than the one seen before
unfoldable pub bounded_by : ℕ → ℕ → ℕ
bounded_by unseen lag = if leb lag unseen then lag else unseen

module _ {ℓ} {A : Type ℓ} (capacity : ℕ) (blank : A) where
  unfoldable pub produce_in : Memory A → Producer A → A → ℕ → Memory A
  unfolding producer_step bounded_by
  produce_in x (Producer.checking item curr_head next_head) _ lag =
      let l = bounded_by x.unseen_tails lag in
      record x {
        machine = record (x.machine) {
          producer =
              if next_head == get_or x.tails l 0
              then Producer.idle
              else Producer.writing item curr_head next_head;
        };
        unseen_tails = l;
      }
  produce_in x (Producer.publishing item next_head) _ _ = record x {
    machine = producer_step capacity blank x.machine (Producer.publishing item next_head) item;
    heads = next_head ∷ x.heads;
    unseen_heads = x.unseen_heads + 1;
  }
  produce_in x p item _ = record x { machine = producer_step capacity blank x.machine p item }

  unfoldable pub consume_in : Memory A → Consumer A → ℕ → Memory A
  unfolding consumer_step bounded_by
  consume_in x (Consumer.checking curr_tail) lag =
      let l = bounded_by x.unseen_heads lag in
      record x {
        machine = record (x.machine) {
          consumer =
              if curr_tail == get_or x.heads l 0 then Consumer.idle else Consumer.reading curr_tail;
        };
        unseen_heads = l;
      }
  consume_in x (Consumer.retiring elem curr_tail) _ = record x {
    machine = consumer_step capacity blank x.machine (Consumer.retiring elem curr_tail);
    tails = next_index capacity curr_tail ∷ x.tails;
    unseen_tails = x.unseen_tails + 1;
  }
  consume_in x c _ = record x { machine = consumer_step capacity blank x.machine c }

  unfoldable pub access : Memory A → Access A → Memory A
  unfolding produce_in consume_in
  access x (produce item lag) = produce_in x x.machine.producer item lag
  access x (consume lag) = consume_in x x.machine.consumer lag

  unfoldable pub run_weak : Memory A → List (Access A) → Memory A
  unfolding access
  run_weak x [] = x
  run_weak x (a ∷ rest) = run_weak (access x a) rest

  unfoldable pub start_weak : Memory A
  start_weak = record {
    machine = Machine.start capacity blank;
    heads = 0 ∷ [];
    tails = 0 ∷ [];
    unseen_heads = 0;
    unseen_tails = 0;
  }
