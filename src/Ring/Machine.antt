-- ===== src/Ring/Machine.antt =====
-- null/spsc_ring_buffer.h with its two threads: push and pop cut at their atomic loads and stores.
-- A run interleaves the accesses of the producer and of the consumer in any order; the accesses
-- are sequentially consistent.
use cc_snippets.Prelude.{ℕ, List, [], ◌∷◌, ◌++◌, ◌==◌, if◌then◌else◌, set, get_or}
use cc_snippets.Ring.{Ring, next_index, init}

-- Where the producer stands in push, with the locals that are live there.
pub data Producer {ℓ} (A : Type ℓ) : Type ℓ where
  idle : Producer A
  -- before `tail_.load`
  checking : (item : A) (curr_head next_head : ℕ) → Producer A
  -- before `buffer_[curr_head] = item`
  writing : (item : A) (curr_head next_head : ℕ) → Producer A
  -- before `head_.store`
  publishing : (item : A) (next_head : ℕ) → Producer A

-- Where the consumer stands in pop.
pub data Consumer {ℓ} (A : Type ℓ) : Type ℓ where
  idle : Consumer A
  -- before `head_.load`
  checking : (curr_tail : ℕ) → Consumer A
  -- before `elem = buffer_[curr_tail]`
  reading : (curr_tail : ℕ) → Consumer A
  -- before `tail_.store`
  retiring : (elem : A) (curr_tail : ℕ) → Consumer A

-- `pushed` and `popped` record the elements of the calls that returned true, in order.
pub record Machine {ℓ} (A : Type ℓ) : Type ℓ where
  pub ring : Ring A
  pub producer : Producer A
  pub consumer : Consumer A
  pub pushed : List A
  pub popped : List A

-- One access of one thread. A producer that is idle begins to push `item`; in the middle of a
-- call the item of the event is not read.
pub data Event {ℓ} (A : Type ℓ) : Type ℓ where
  produce : (item : A) → Event A
  consume : Event A

module _ {ℓ} {A : Type ℓ} (capacity : ℕ) (blank : A) where
  unfoldable pub producer_step : Machine A → Producer A → A → Machine A
  producer_step m Producer.idle item = record m {
    producer = Producer.checking item m.ring.head (next_index capacity m.ring.head);
  }
  producer_step m (Producer.checking item curr_head next_head) _ =
      if next_head == m.ring.tail
      then record m { producer = Producer.idle }
      else record m { producer = Producer.writing item curr_head next_head }
  producer_step m (Producer.writing item curr_head next_head) _ = record m {
    ring = record (m.ring) { buffer = set m.ring.buffer curr_head item };
    producer = Producer.publishing item next_head;
  }
  producer_step m (Producer.publishing item next_head) _ = record m {
    ring = record (m.ring) { head = next_head };
    producer = Producer.idle;
    pushed = m.pushed ++ item ∷ [];
  }

  unfoldable pub consumer_step : Machine A → Consumer A → Machine A
  consumer_step m Consumer.idle = record m { consumer = Consumer.checking m.ring.tail }
  consumer_step m (Consumer.checking curr_tail) =
      if curr_tail == m.ring.head
      then record m { consumer = Consumer.idle }
      else record m { consumer = Consumer.reading curr_tail }
  consumer_step m (Consumer.reading curr_tail) = record m {
    consumer = Consumer.retiring (get_or m.ring.buffer curr_tail blank) curr_tail;
  }
  consumer_step m (Consumer.retiring elem curr_tail) = record m {
    ring = record (m.ring) { tail = next_index capacity curr_tail };
    consumer = Consumer.idle;
    popped = m.popped ++ elem ∷ [];
  }

  unfoldable pub step : Machine A → Event A → Machine A
  step m (produce item) = producer_step m m.producer item
  step m consume = consumer_step m m.consumer

  unfoldable pub run : Machine A → List (Event A) → Machine A
  run m [] = m
  run m (e ∷ es) = run (step m e) es

  -- a new ring, and both threads outside a call
  unfoldable pub start : Machine A
  unfolding init
  start = record {
    ring = init capacity blank;
    producer = Producer.idle;
    consumer = Consumer.idle;
    pushed = [];
    popped = [];
  }
