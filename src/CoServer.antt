-- ===== src/CoServer.antt =====
-- The session of asio/echo/co_server.cc: the coroutine `echo` sends back what it receives, and a
-- coroutine `wait` or `watch` closes the socket when an operation takes too long. They run one at a
-- time, on the session's strand, and a step is what a coroutine does from one wait to the next. That
-- asio::spawn may run a coroutine at once or later is a coroutine in a queue that some later step
-- starts, which leads to the same states. The session is destroyed, and its socket closed, when its
-- last coroutine ends. A session begins when `echo` runs for the first time; `watch` is spawned
-- after it on the same strand and runs after it. An operation on a closed socket fails; that it may
-- also succeed is allowed here, which only adds runs.
pub mod Invariant
pub mod Echo
pub mod Claims
pub mod Errors
mod Tests
use cc_snippets.Prelude.{
  ℕ, zero, suc, ◌+◌, Bool, true, false, List, [], ◌∷◌, Option, none, some, leb, ltb, if◌then◌else◌,
  length, take,
}
use cc_snippets.Channel.{
  buffer_size, Pending, nothing, receiving, sending, Completion, fails, succeeds, Channel, resize,
  fill, drain,
}

-- `spawned` counts the coroutines `wait` or `watch` that have not run yet, `wait` is when the timer
-- expires, while a coroutine waits for it, and `expired` counts those whose wait has expired and
-- that are to be resumed. `echo` has ended when nothing is pending. `begun` is when the last
-- operation was begun.
pub record Session : Type 0 where
  pub with_timeout : Bool
  pub is_open : Bool
  pub channel : Channel
  pub spawned : ℕ
  pub wait : Option ℕ
  pub expired : ℕ
  pub deadline : ℕ
  pub timeout : ℕ
  pub clock : ℕ
  pub begun : ℕ

-- the spawned coroutine `wait`
unfoldable pub start_timeout : Session → Session
start_timeout s = record s { spawned = s.spawned + 1 }

-- `wait` from its start to async_wait, which first cancels an earlier wait
unfoldable pub wait : Session → Session
wait s = record s { wait = some (s.clock + s.timeout) }

unfoldable pub close : Session → Session
close s = record s { is_open = false }

-- `timer_.cancel ()`
unfoldable pub cancel : Session → Session
cancel s = record s { wait = none }

-- the spawned coroutine `watch`
unfoldable pub start_watchdog : Session → Session
start_watchdog s = record s { spawned = s.spawned + 1 }

-- `watch` from the head of its loop to async_wait
unfoldable pub watch : Session → Session
unfolding close
watch s = if leb s.deadline s.clock then close s else record s { wait = some s.deadline }

-- An operation of `echo` begins.
unfoldable pub begin : Pending → Session → Session
begin p s = record s { channel = record (s.channel) { pending = p }; begun = s.clock }

-- `buffer_.resize (n)`
unfoldable pub resize_buffer : ℕ → Session → Session
unfolding resize
resize_buffer n s = record s { channel = record (s.channel) { buffer = resize n s.channel.buffer } }

-- `asio::async_write` of all of buffer_
unfoldable pub write_buffer : Session → Session
unfolding begin
write_buffer s = begin (sending (length s.channel.buffer)) s

-- the two operations in the loop of `echo`
unfoldable pub receive_with_timeout : Session → Session
unfolding start_timeout resize_buffer begin
receive_with_timeout s = begin receiving (resize_buffer buffer_size (start_timeout s))

unfoldable pub write_with_timeout : ℕ → Session → Session
unfolding start_timeout resize_buffer write_buffer
write_with_timeout n s = write_buffer (resize_buffer n (start_timeout s))

unfoldable pub receive_with_watchdog : Session → Session
unfolding resize_buffer begin
receive_with_watchdog s =
    begin receiving (resize_buffer buffer_size (record s { deadline = s.clock + s.timeout }))

unfoldable pub write_with_watchdog : ℕ → Session → Session
unfolding resize_buffer write_buffer
write_with_watchdog n s =
    write_buffer (resize_buffer n (record s { deadline = s.clock + s.timeout }))

unfoldable pub start_with_timeout : Session → Session
unfolding receive_with_timeout
start_with_timeout s = receive_with_timeout (record s { with_timeout = true })

unfoldable pub start_with_watchdog : Session → Session
unfolding receive_with_watchdog start_watchdog
start_with_watchdog s = start_watchdog (receive_with_watchdog (record s { with_timeout = false }))

unfoldable pub start : Bool → Session → Session
unfolding start_with_timeout start_with_watchdog
start with_timeout s = if with_timeout then start_with_timeout s else start_with_watchdog s

-- the constructor, with the timeout, at a time
unfoldable pub init : ℕ → ℕ → Session
init timeout clock = record {
  with_timeout = false;
  is_open = true;
  channel = record { pending = nothing; buffer = []; received = []; sent = [] };
  spawned = 0;
  wait = none;
  expired = 0;
  deadline = 0;
  timeout = timeout;
  clock = clock;
  begun = 0;
}

-- `echo` after the error that ends its loop; no operation is pending
unfoldable pub end : Session → Session
unfolding cancel
end s = cancel (record s { channel = record (s.channel) { pending = nothing } })

-- `echo` after a receive and after a write
unfoldable pub received_with_timeout : Session → Completion → Session
unfolding end cancel fill write_with_timeout
received_with_timeout s fails = end s
received_with_timeout s (succeeds bytes) =
    write_with_timeout (length (take buffer_size bytes))
      (cancel (record s { channel = fill bytes s.channel }))

unfoldable pub sent_with_timeout : Session → ℕ → Completion → Session
unfolding end cancel drain receive_with_timeout
sent_with_timeout s n fails = end s
sent_with_timeout s n (succeeds _) =
    receive_with_timeout (cancel (record s { channel = drain n s.channel }))

unfoldable pub received_with_watchdog : Session → Completion → Session
unfolding end fill write_with_watchdog
received_with_watchdog s fails = end s
received_with_watchdog s (succeeds bytes) =
    write_with_watchdog (length (take buffer_size bytes))
      (record s { channel = fill bytes s.channel })

unfoldable pub sent_with_watchdog : Session → ℕ → Completion → Session
unfolding end drain receive_with_watchdog
sent_with_watchdog s n fails = end s
sent_with_watchdog s n (succeeds _) =
    receive_with_watchdog (record s { channel = drain n s.channel })

-- A coroutine `wait` or `watch` runs for the first time, or after its wait has expired.
unfoldable pub resume_first : Session → ℕ → Session
unfolding wait watch
resume_first s zero = s
resume_first s (suc n) =
    let s' = record s { spawned = n } in if s.with_timeout then wait s' else watch s'

unfoldable pub resume_expired : Session → ℕ → Session
unfolding close watch
resume_expired s zero = s
resume_expired s (suc n) =
    let s' = record s { expired = n } in if s.with_timeout then close s' else watch s'

unfoldable pub resume_echo : Session → Pending → Completion → Session
unfolding received_with_timeout sent_with_timeout received_with_watchdog sent_with_watchdog
resume_echo s nothing c = s
resume_echo s receiving c =
    if s.with_timeout then received_with_timeout s c else received_with_watchdog s c
resume_echo s (sending n) c =
    if s.with_timeout then sent_with_timeout s n c else sent_with_watchdog s n c

-- the timer notices that its time has come
unfoldable pub expire : Session → Option ℕ → Session
expire s none = s
expire s (some e) = if leb e s.clock then record s { wait = none; expired = s.expired + 1 } else s

-- whether a coroutine keeps the session
unfoldable pub is_kept : Pending → Option ℕ → ℕ → Bool
is_kept nothing none n = ltb 0 n
is_kept _ _ n = true

-- the destructor, when no coroutine keeps the session
unfoldable pub release : Session → Session
unfolding is_kept
release s =
    if is_kept s.channel.pending s.wait (s.spawned + s.expired)
    then s
    else record s { is_open = false }

pub data Event : Type 0 where
  ticks : ℕ → Event
  -- the operation that echo waits for ends
  completes : Completion → Event
  expires resumes_first resumes_expired : Event

unfoldable pub act : Session → Event → Session
unfolding resume_first resume_expired resume_echo expire
act s (ticks n) = record s { clock = s.clock + n }
act s (completes c) = resume_echo s s.channel.pending c
act s expires = expire s s.wait
act s resumes_first = resume_first s s.spawned
act s resumes_expired = resume_expired s s.expired

unfoldable pub step : Session → Event → Session
unfolding act release
step s e = release (act s e)

unfoldable pub run : Session → List Event → Session
unfolding step
run s [] = s
run s (e ∷ es) = run (step s e) es
