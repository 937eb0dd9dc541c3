-- ===== src/CoClient.antt =====
-- asio/echo/co_client.cc: the client of asio/echo/client.cc with a coroutine for each session. The
-- counters, the monitor, the launch of the sessions and a session's buffers are those of
-- asio/echo/client.cc, whose code is the same, and are taken from EchoClient; the coroutine
-- `session::start` differs in the order of the counters after an error, and in that it does not look
-- at the error of its wait. It is cut at its accesses of the counters, each of which is one step.
pub mod Counts
pub mod Callbacks
mod Tests
use cc_snippets.Prelude.{
  ℕ, ◌+◌, ◌-◌, Bool, true, List, [], ◌∷◌, Option, none, some, if◌then◌else◌, get_elem?, set,
}
use cc_snippets.EchoClient.{
  Session, Phase, connecting, writing, reading, waiting, refused, accepted, losing, ended, World,
  monitor_step, Event, advances, monitors, interrupts, Completion, fails, succeeds, same_bytes,
  start_write,
}

-- the head of the loop: the write begins
unfoldable pub send : Session → Session
unfolding start_write
send s = start_write s

-- `connected--` after an error; the phase `losing` is the one between that and `failed++`
unfoldable pub lose : World → Session → World × Session
lose w s = (record w { connected = w.connected - 1 }, record s { phase = losing })

-- `start` after async_connect, after async_write and after async_read
unfoldable pub connect : World → Session → Completion → World × Session
connect w s fails = (record w { completed = w.completed + 1 }, record s { phase = refused })
connect w s (succeeds _) = (record w { completed = w.completed + 1 }, record s { phase = accepted })

unfoldable pub sent : World → Session → Completion → World × Session
unfolding lose
sent w s fails = lose w s
sent w s (succeeds _) = (w, record s { phase = reading })

unfoldable pub received : World → Session → Completion → World × Session
unfolding lose same_bytes
received w s fails = lose w s
received w s (succeeds bytes) = (
  if same_bytes bytes s.send_buffer then record w { echoes = w.echoes + 1 } else w,
  record s { phase = waiting; recv_buffer = bytes },
)

-- The next step of the coroutine.
unfoldable pub resume : World → Session → Phase → Completion → World × Session
unfolding connect sent received send
resume w s connecting c = connect w s c
resume w s writing c = sent w s c
resume w s reading c = received w s c
resume w s waiting _ = (w, send s)
resume w s refused _ = (record w { failed = w.failed + 1 }, record s { phase = ended })
resume w s accepted _ = (record w { connected = w.connected + 1 }, send s)
resume w s losing _ = (record w { failed = w.failed + 1 }, record s { phase = ended })
resume w s ended _ = (w, s)

unfoldable pub resume_at : World → ℕ → Completion → Option Session → World
unfolding resume
resume_at w i c none = w
resume_at w i c (some s) =
    let (w', s') = resume w s s.phase c in record w' { sessions = set w.sessions i s' }

unfoldable pub monitor : World → World
unfolding monitor_step
monitor w = monitor_step w w.monitor

unfoldable pub step : World → Event → World
unfolding resume_at monitor
step w (advances i c) = resume_at w i c (get_elem? w.sessions i)
step w monitors = monitor w
-- SIGINT
step w interrupts = record w { stop = true }

unfoldable pub run : World → List Event → World
unfolding step
run w [] = w
run w (e ∷ es) = run (step w e) es
