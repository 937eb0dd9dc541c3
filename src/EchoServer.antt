-- ===== src/EchoServer.antt =====
-- The session of asio/echo/server.cc, which sends back what it receives and closes its socket when
-- an operation takes too long. Handlers of one session run one after the other, on its strand; a
-- handler is one step. A wait of the timer either is pending, and can be cancelled, or has expired
-- and has its handler in the queue, which nothing takes out again. Handlers that get an error from
-- the timer do nothing and are left out. An operation on a closed socket fails; that it may also
-- succeed is allowed here, which only adds runs.
pub mod Invariant
pub mod Claims
pub mod Echo
mod Tests
use cc_snippets.Channel.{
  buffer_size, Pending, nothing, receiving, sending, Completion, fails, succeeds, Channel,
  new_buffer, fill, drain,
}
use cc_snippets.Prelude.{
  ℕ, zero, suc, ◌+◌, ◌-◌, Bool, true, false, List, [], ◌∷◌, ◌++◌, Option, none, some, leb,
  if◌then◌else◌, take, length,
}

-- `wait` is when the timer expires, while a wait is pending, and `expired` counts the queued
-- handlers of waits that have expired. `begun` is when the last operation was begun. `with_timeout` is
-- the argument of start.
pub record Session : Type 0 where
  pub with_timeout : Bool
  pub is_open : Bool
  pub channel : Channel
  pub wait : Option ℕ
  pub expired : ℕ
  pub deadline : ℕ
  pub timeout : ℕ
  pub clock : ℕ
  pub begun : ℕ

unfoldable pub stop : Session → Session
stop s = record s { is_open = false; wait = none }

unfoldable pub receive_with_watchdog : Session → Session
receive_with_watchdog s = record s {
  channel = record (s.channel) { pending = receiving };
  deadline = s.clock + s.timeout;
  begun = s.clock;
}

unfoldable pub send_with_watchdog : ℕ → Session → Session
send_with_watchdog bytes_to_send s = record s {
  channel = record (s.channel) { pending = sending bytes_to_send };
  deadline = s.clock + s.timeout;
  begun = s.clock;
}

unfoldable pub start_watchdog : Session → Session
unfolding stop
start_watchdog s = if leb s.deadline s.clock then stop s else record s { wait = some s.deadline }

unfoldable pub start_timeout : Session → Session
start_timeout s = record s { wait = some (s.clock + s.timeout) }

unfoldable pub receive_with_timeout : Session → Session
unfolding start_timeout
receive_with_timeout s =
    start_timeout
      (record s { channel = record (s.channel) { pending = receiving }; begun = s.clock })

unfoldable pub send_with_timeout : ℕ → Session → Session
unfolding start_timeout
send_with_timeout bytes_to_send s =
    start_timeout (record s {
      channel = record (s.channel) { pending = sending bytes_to_send };
      begun = s.clock;
    })

unfoldable pub start : Bool → Session → Session
unfolding receive_with_timeout receive_with_watchdog start_watchdog
start with_timeout s =
    if with_timeout
    then receive_with_timeout (record s { with_timeout = true })
    else start_watchdog (receive_with_watchdog (record s { with_timeout = false }))

-- the constructor, with the timeout, at a time
unfoldable pub init : ℕ → ℕ → Session
init timeout clock = record {
  with_timeout = false;
  is_open = true;
  channel = record { pending = nothing; buffer = new_buffer; received = []; sent = [] };
  wait = none;
  expired = 0;
  deadline = 0;
  timeout = timeout;
  clock = clock;
  begun = 0;
}

-- `timer_.cancel ()`
unfoldable pub cancel : Session → Session
cancel s = record s { wait = none }

-- the four handlers of the socket's operations
unfoldable pub received_with_watchdog : Session → Completion → Session
unfolding stop fill send_with_watchdog
received_with_watchdog s fails = stop s
received_with_watchdog s (succeeds bytes) =
    send_with_watchdog (length (take buffer_size bytes))
      (record s { channel = fill bytes s.channel })

unfoldable pub sent_with_watchdog : Session → ℕ → Completion → Session
unfolding stop drain receive_with_watchdog
sent_with_watchdog s n fails = stop s
sent_with_watchdog s n (succeeds _) =
    receive_with_watchdog (record s { channel = drain n s.channel })

unfoldable pub received_with_timeout : Session → Completion → Session
unfolding stop fill cancel send_with_timeout
received_with_timeout s fails = stop (cancel s)
received_with_timeout s (succeeds bytes) =
    send_with_timeout (length (take buffer_size bytes))
      (cancel (record s { channel = fill bytes s.channel }))

unfoldable pub sent_with_timeout : Session → ℕ → Completion → Session
unfolding stop cancel drain receive_with_timeout
sent_with_timeout s n fails = stop (cancel s)
sent_with_timeout s n (succeeds _) =
    receive_with_timeout (cancel (record s { channel = drain n s.channel }))

-- The handler of a wait that has expired.
unfoldable pub handle_wait : Session → Session
unfolding stop start_watchdog
handle_wait s = if s.with_timeout then stop s else start_watchdog s

pub data Event : Type 0 where
  -- the clock goes on
  ticks : ℕ → Event
  -- the pending operation ends, and its handler runs
  completes : Completion → Event
  -- the timer notices that its time has come
  expires : Event
  -- the handler of an expired wait runs
  handles_wait : Event

unfoldable pub complete : Session → Pending → Completion → Session
unfolding received_with_watchdog sent_with_watchdog received_with_timeout sent_with_timeout
complete s nothing c = s
complete s receiving c =
    let s' = record s { channel = record (s.channel) { pending = nothing } } in
    if s.with_timeout then received_with_timeout s' c else received_with_watchdog s' c
complete s (sending n) c =
    let s' = record s { channel = record (s.channel) { pending = nothing } } in
    if s.with_timeout then sent_with_timeout s' n c else sent_with_watchdog s' n c

unfoldable pub expire : Session → Option ℕ → Session
expire s none = s
expire s (some e) = if leb e s.clock then record s { wait = none; expired = s.expired + 1 } else s

unfoldable pub run_wait : Session → ℕ → Session
unfolding handle_wait
run_wait s zero = s
run_wait s (suc n) = handle_wait (record s { expired = n })

unfoldable pub step : Session → Event → Session
unfolding complete expire run_wait
step s (ticks n) = record s { clock = s.clock + n }
step s (completes c) = complete s s.channel.pending c
step s expires = expire s s.wait
step s handles_wait = run_wait s s.expired

unfoldable pub run : Session → List Event → Session
unfolding step
run s [] = s
run s (e ∷ es) = run (step s e) es
