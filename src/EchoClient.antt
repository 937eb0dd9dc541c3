-- ===== src/EchoClient.antt =====
-- asio/echo/client.cc: many sessions that send a greeting and count its echoes, and a monitor
-- that reads the counters. A handler is cut at its accesses of the atomic counters, each of which
-- is one step of a thread; a run takes the steps of sessions, of the monitor and of the signal
-- handler in any order. The counters, of type int, are numbers without a bound.
pub mod Totals
pub mod Counts
pub mod Settled
pub mod Monitoring
mod Tests
use cc_snippets.Channel.{resize}
use cc_snippets.Prelude.{
  ℤ, pos, negsuc, pos_part, ◌+ℤ◌, quotient, is_multiple, ℕ, zero, suc, ◌+◌, ◌-◌, ◌*◌, ◌/◌, ◌%◌,
  Bool, true, false, ◌&&◌, List, [], ◌∷◌, ◌++◌, Option, none, some, ◌==◌, ltb, if◌then◌else◌,
  get_elem?, set, replicate, length,
}

-- `"Hello world!"`, by its characters
abbrev pub greeting : List ℕ
greeting = 72 ∷ 101 ∷ 108 ∷ 108 ∷ 111 ∷ 32 ∷ 119 ∷ 111 ∷ 114 ∷ 108 ∷ 100 ∷ 33 ∷ []

-- `recv_buffer_ == send_buffer_`
unfoldable pub same_bytes : List ℕ → List ℕ → Bool
same_bytes [] [] = true
same_bytes (x ∷ l) (y ∷ r) = (x == y) && same_bytes l r
same_bytes _ _ = false

-- What a session waits for, or where in a handler it stands.
pub data Phase : Type 0 where
  -- async_connect, async_write, async_read and async_wait are pending
  connecting writing reading waiting : Phase
  -- in handle_connect behind `completed++`, with and without an error
  refused accepted : Phase
  -- in on_error behind `failed++`
  losing : Phase
  -- nothing is pending any more
  ended : Phase

pub record Session : Type 0 where
  pub phase : Phase
  pub send_buffer : List ℕ
  pub recv_buffer : List ℕ

-- Where monitor stands: before which of its accesses. `last` and `times` are its variables.
pub data Monitor : Type 0 where
  -- `!stop` and `completed < connections` of the first loop, and `if (stop)` behind it
  testing_stop testing_completed leaving : Monitor
  -- `!stop`, `connected.load () == 0`, `stop = true` and `echoes.load ()` of the second loop
  polling testing_connected measuring : (last times : ℕ) → Monitor
  stopping : (times : ℕ) → Monitor
  -- `echoes.load ()` behind it
  summing : (times : ℕ) → Monitor
  -- it has returned, at once or with the total and the rate that it printed
  returned : Option (ℕ × ℕ) → Monitor

-- `rates` has the rates that monitor printed in its second loop, the last first.
pub record World : Type 0 where
  pub connections : ℤ
  pub stop : Bool
  pub echoes : ℕ
  pub failed : ℕ
  pub connected : ℕ
  pub completed : ℕ
  pub sessions : List Session
  pub monitor : Monitor
  pub rates : List ℕ

-- How the pending operation of a session ends.
pub data Completion : Type 0 where
  fails : Completion
  -- async_read fills the buffer with `bytes`, which the other operations do not read
  succeeds : (bytes : List ℕ) → Completion

-- `start ()`, up to the write that it begins
unfoldable pub start_write : Session → Session
unfolding resize
start_write s = record s {
  phase = writing;
  send_buffer = greeting;
  recv_buffer = resize (length greeting) s.recv_buffer;
}

-- `failed++` of on_error
unfoldable pub on_error : World → Session → World × Session
on_error w s = (record w { failed = w.failed + 1 }, record s { phase = losing })

unfoldable pub handle_connect : World → Session → Completion → World × Session
handle_connect w s fails = (record w { completed = w.completed + 1 }, record s { phase = refused })
handle_connect w s (succeeds _) =
    (record w { completed = w.completed + 1 }, record s { phase = accepted })

unfoldable pub handle_write : World → Session → Completion → World × Session
unfolding on_error
handle_write w s fails = on_error w s
handle_write w s (succeeds _) = (w, record s { phase = reading })

unfoldable pub handle_read : World → Session → Completion → World × Session
unfolding on_error same_bytes
handle_read w s fails = on_error w s
handle_read w s (succeeds bytes) = (
  if same_bytes bytes s.send_buffer then record w { echoes = w.echoes + 1 } else w,
  record s { phase = waiting; recv_buffer = bytes },
)

unfoldable pub handle_wait : World → Session → Completion → World × Session
unfolding on_error start_write
handle_wait w s fails = on_error w s
handle_wait w s (succeeds _) = (w, start_write s)

-- The next step of a session: its handler up to the first access, or the rest of its handler.
unfoldable pub session_step : World → Session → Phase → Completion → World × Session
unfolding handle_connect handle_write handle_read handle_wait start_write
session_step w s connecting c = handle_connect w s c
session_step w s writing c = handle_write w s c
session_step w s reading c = handle_read w s c
session_step w s waiting c = handle_wait w s c
session_step w s refused _ = (record w { failed = w.failed + 1 }, record s { phase = ended })
session_step w s accepted _ = (record w { connected = w.connected + 1 }, start_write s)
session_step w s losing _ = (record w { connected = w.connected - 1 }, record s { phase = ended })
session_step w s ended _ = (w, s)

-- `completed < connections`
unfoldable pub is_below : ℕ → ℤ → Bool
is_below n (pos m) = ltb n m
is_below n (negsuc _) = false

unfoldable pub monitor_step : World → Monitor → World
unfolding is_below
monitor_step w testing_stop = record w { monitor = if w.stop then leaving else testing_completed }
monitor_step w testing_completed = record w {
  monitor = if is_below w.completed w.connections then testing_stop else leaving;
}
monitor_step w leaving = record w { monitor = if w.stop then returned none else polling 0 0 }
monitor_step w (polling last times) = record w {
  monitor = if w.stop then summing times else testing_connected last times;
}
monitor_step w (testing_connected last times) = record w {
  monitor = if w.connected == 0 then stopping times else measuring last times;
}
monitor_step w (stopping times) = record w { stop = true; monitor = summing times }
monitor_step w (measuring last times) = record w {
  rates = (w.echoes - last) ∷ w.rates;
  monitor = polling w.echoes (times + 1);
}
monitor_step w (summing times) = record w {
  monitor = returned (some (w.echoes, (if times == 0 then 0 else w.echoes / times)));
}
monitor_step w (returned r) = w

pub data Event : Type 0 where
  advances : (place : ℕ) → Completion → Event
  monitors interrupts : Event

unfoldable pub session_at : World → ℕ → Completion → Option Session → World
unfolding session_step
session_at w i c none = w
session_at w i c (some s) =
    let (w', s') = session_step w s s.phase c in record w' { sessions = set w.sessions i s' }

unfoldable pub step : World → Event → World
unfolding session_at monitor_step
step w (advances i c) = session_at w i c (get_elem? w.sessions i)
step w monitors = monitor_step w w.monitor
-- SIGINT
step w interrupts = record w { stop = true }

unfoldable pub run : World → List Event → World
unfolding step
run w [] = w
run w (e ∷ es) = run (step w e) es

-- `conns`, the rounds of the loop of each of the ten threads, and the sessions of all of them. The
-- argument may be negative.
unfoldable pub conns : ℤ → ℤ
conns connections = quotient connections 10 +ℤ pos (if is_multiple connections 10 then 0 else 1)

unfoldable pub launched : ℤ → ℕ
unfolding conns
launched connections = 10 * pos_part (conns connections)

unfoldable pub start : ℤ → World
unfolding launched
start n = record {
  connections = n;
  stop = false;
  echoes = 0;
  failed = 0;
  connected = 0;
  completed = 0;
  sessions =
      replicate (launched n) (record { phase = connecting; send_buffer = []; recv_buffer = [] });
  monitor = testing_stop;
  rates = [];
}
