-- ===== src/Proxy.antt =====
-- The session of asio/proxy/server.cc: what a client sends goes to a server, and what the server
-- sends goes to the client. `up` is the direction from the client, with client_buffer_ and
-- watchdog1_, and `down` that to the client, with server_buffer_ and watchdog2_. A handler is one
-- step, since one thread runs the io_context. An operation on a closed socket fails; that it may
-- also succeed is allowed here, which only adds runs.
pub mod Watching
pub mod Watched
pub mod Invariant
pub mod Valid
pub mod Relaying
pub mod Errors
pub mod Claims
mod Tests
use cc_snippets.Prelude.{
  ℕ, ◌+◌, Bool, true, false, List, [], ◌∷◌, Option, none, some, if◌then◌else◌, length, take,
}
use cc_snippets.Acceptor.{Protocol}
use cc_snippets.Channel.{
  buffer_size, Pending, nothing, receiving, sending, Completion, fails, succeeds, Channel,
  new_buffer, fill, drain,
}
use cc_snippets.Proxy.Watching.{Watchdog}

-- One direction; `begun` is when its last operation was begun.
pub record Relay : Type 0 where
  pub channel : Channel
  pub watchdog : Watchdog
  pub begun : ℕ

-- `connecting` tells whether async_connect is pending.
pub record Session : Type 0 where
  pub client_open : Bool
  pub server_open : Bool
  pub connecting : Bool
  pub timeout : ℕ
  pub clock : ℕ
  pub up : Relay
  pub down : Relay

-- An operation of one direction begins, and its watchdog is delayed.
unfoldable pub begin : ℕ → ℕ → Pending → Relay → Relay
unfolding Watching.delay
begin now timeout p r = record r {
  channel = record (r.channel) { pending = p };
  watchdog = Watching.delay now timeout r.watchdog;
  begun = now;
}

unfoldable pub stop : Session → Session
unfolding Watching.stop
stop s = record s {
  client_open = false;
  server_open = false;
  up = record (s.up) { watchdog = Watching.stop s.up.watchdog };
  down = record (s.down) { watchdog = Watching.stop s.down.watchdog };
}

unfoldable pub receive_from_client : Session → Session
unfolding begin
receive_from_client s = record s { up = begin s.clock s.timeout receiving s.up }

unfoldable pub send_to_server : ℕ → Session → Session
unfolding begin
send_to_server bytes_to_send s = record s {
  up = begin s.clock s.timeout (sending bytes_to_send) s.up;
}

unfoldable pub receive_from_server : Session → Session
unfolding begin
receive_from_server s = record s { down = begin s.clock s.timeout receiving s.down }

unfoldable pub send_to_client : ℕ → Session → Session
unfolding begin
send_to_client bytes_to_send s = record s {
  down = begin s.clock s.timeout (sending bytes_to_send) s.down;
}

-- The watchdog of one direction has started or gone on, and has called its callback or not.
unfoldable pub up_watched : Session → Watchdog × Bool → Session
unfolding stop
up_watched s (w, called) =
    let s' = record s { up = record (s.up) { watchdog = w } } in if called then stop s' else s'

unfoldable pub down_watched : Session → Watchdog × Bool → Session
unfolding stop
down_watched s (w, called) =
    let s' = record s { down = record (s.down) { watchdog = w } } in if called then stop s' else s'

unfoldable pub start_watchdogs : Session → Session
unfolding up_watched down_watched Watching.start
start_watchdogs s =
    let s' = up_watched s (Watching.start s.clock s.up.watchdog) in
    down_watched s' (Watching.start s'.clock s'.down.watchdog)

-- The constructor, and `start`: the connection to the server is pending.
unfoldable pub start : ℕ → ℕ → Session
start timeout clock =
    let relay : Relay = record {
      channel = record { pending = nothing; buffer = new_buffer; received = []; sent = [] };
      watchdog = record { wait = none; expired = 0; deadline = 0 };
      begun = 0;
    } in
    record {
      client_open = true;
      server_open = true;
      connecting = true;
      timeout = timeout;
      clock = clock;
      up = relay;
      down = relay;
    }

-- After an error nothing refers to the session any more, and its destructor closes the sockets.
unfoldable pub handle_connect : Session → Completion → Session
unfolding receive_from_client receive_from_server start_watchdogs
handle_connect s fails = record s { client_open = false; server_open = false }
handle_connect s (succeeds _) = start_watchdogs (receive_from_server (receive_from_client s))

-- the handlers of the four operations
unfoldable pub received_from_client : Session → Completion → Session
unfolding stop fill send_to_server
received_from_client s fails = stop s
received_from_client s (succeeds bytes) =
    send_to_server (length (take buffer_size bytes))
      (record s { up = record (s.up) { channel = fill bytes s.up.channel } })

unfoldable pub sent_to_server : Session → ℕ → Completion → Session
unfolding stop drain receive_from_client
sent_to_server s n fails = stop s
sent_to_server s n (succeeds _) =
    receive_from_client (record s { up = record (s.up) { channel = drain n s.up.channel } })

unfoldable pub received_from_server : Session → Completion → Session
unfolding stop fill send_to_client
received_from_server s fails = stop s
received_from_server s (succeeds bytes) =
    send_to_client (length (take buffer_size bytes))
      (record s { down = record (s.down) { channel = fill bytes s.down.channel } })

unfoldable pub sent_to_client : Session → ℕ → Completion → Session
unfolding stop drain receive_from_server
sent_to_client s n fails = stop s
sent_to_client s n (succeeds _) =
    receive_from_server (record s { down = record (s.down) { channel = drain n s.down.channel } })

pub data Event : Type 0 where
  ticks : ℕ → Event
  -- the connection is made, or fails
  connects : Completion → Event
  -- the pending operation of a direction ends, and its handler runs
  completes_up completes_down : Completion → Event
  -- a timer notices that its time has come, and the handler runs
  expires_up expires_down handles_up handles_down : Event

unfoldable pub connect : Session → Bool → Completion → Session
unfolding handle_connect
connect s true c = handle_connect (record s { connecting = false }) c
connect s false c = s

-- the operation that has ended is not pending any more
unfoldable pub idle : Relay → Relay
idle r = record r { channel = record (r.channel) { pending = nothing } }

unfoldable pub complete_up : Session → Pending → Completion → Session
unfolding received_from_client sent_to_server idle
complete_up s nothing c = s
complete_up s receiving c = received_from_client (record s { up = idle s.up }) c
complete_up s (sending n) c = sent_to_server (record s { up = idle s.up }) n c

unfoldable pub complete_down : Session → Pending → Completion → Session
unfolding received_from_server sent_to_client idle
complete_down s nothing c = s
complete_down s receiving c = received_from_server (record s { down = idle s.down }) c
complete_down s (sending n) c = sent_to_client (record s { down = idle s.down }) n c

unfoldable pub step : Session → Event → Session
unfolding connect complete_up complete_down up_watched down_watched idle Watching.expire
    Watching.run_wait
step s (ticks n) = record s { clock = s.clock + n }
step s (connects c) = connect s s.connecting c
step s (completes_up c) = complete_up s s.up.channel.pending c
step s (completes_down c) = complete_down s s.down.channel.pending c
step s expires_up = record s {
  up = record (s.up) { watchdog = Watching.expire s.clock s.up.watchdog };
}
step s expires_down = record s {
  down = record (s.down) { watchdog = Watching.expire s.clock s.down.watchdog };
}
step s handles_up = up_watched s (Watching.run_wait s.clock s.up.watchdog)
step s handles_down = down_watched s (Watching.run_wait s.clock s.down.watchdog)

unfoldable pub run : Session → List Event → Session
unfolding step
run s [] = s
run s (e ∷ es) = run (step s e) es

abbrev pub default_timeout : ℕ
default_timeout = 5

-- what the server does with a connection
abbrev pub proxy : Protocol Session Event
proxy = record { begin = λ clock. start default_timeout clock; step = step }
