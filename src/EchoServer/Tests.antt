-- ===== src/EchoServer/Tests.antt =====
-- The theorems about asio/echo/server.cc on sessions with a timeout of 5.
use cc_snippets.Prelude.{
  ltb, arith, ℕ, ◌+◌, ◌≡◌, ◌≢◌, ◌≤◌, ◌<◌, ◌⊎◌, refl, true, false, List, [], ◌∷◌, some,
}
use cc_snippets.Channel.{nothing, succeeds, fill}
use cc_snippets.Channel.Relayed.{IsRelaying}
use cc_snippets.EchoServer.{
  Session, Event, ticks, completes, expires, handles_wait, start, init, run, step, start_watchdog,
  receive_with_watchdog, receive_with_timeout, start_timeout, complete, received_with_watchdog,
  received_with_timeout, send_with_watchdog, send_with_timeout, cancel, expire, run_wait,
  handle_wait, stop,
}
use cc_snippets.EchoServer.Claims.{run_watched, run_patient}
use cc_snippets.EchoServer.Echo.{run_echoes}

-- It receives two bytes at 3 and then hangs: the wait expires at 5 and is set anew, to 8.
abbrev events : List Event
events =
    ticks 3
    ∷ completes (succeeds (7 ∷ 8 ∷ []))
    ∷ ticks 2
    ∷ expires
    ∷ handles_wait
    ∷ ticks 4
    ∷ expires
    ∷ []

abbrev hung : Session
hung = run (start false (init 5 0)) events

run_watched_example :
    (hung.channel.pending ≢ nothing)
    × (((e : ℕ) × (hung.wait ≡ some e) × (e ≤ hung.clock + hung.timeout)) ⊎ (0 < hung.expired))
unfolding run step start start_watchdog receive_with_watchdog init complete received_with_watchdog
    send_with_watchdog fill expire run_wait handle_wait
run_watched_example = run_watched false 5 0 events hung refl refl

run_patient_example : (step hung handles_wait).is_open ≡ ltb hung.clock (hung.begun + hung.timeout)
unfolding run step start start_watchdog receive_with_watchdog init complete received_with_watchdog
    send_with_watchdog fill expire run_wait handle_wait stop
run_patient_example = run_patient 5 0 events hung refl refl (omega arith)

run_echoes_example : IsRelaying hung.channel
run_echoes_example = run_echoes false 5 0 events

-- With timeouts, a wait expires just before an operation ends: its handler, already in the queue,
-- closes the socket although the next operation has been pending for no time at all.
abbrev raced : Session
raced =
    run (start true (init 5 0))
      (ticks 5 ∷ expires ∷ completes (succeeds (7 ∷ [])) ∷ handles_wait ∷ [])

raced_closed : (raced.is_open ≡ false) × (raced.begun ≡ raced.clock)
unfolding run step start receive_with_timeout start_timeout init complete received_with_timeout
    send_with_timeout fill cancel expire run_wait handle_wait stop
raced_closed = (refl, refl)
