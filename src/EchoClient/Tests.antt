-- ===== src/EchoClient/Tests.antt =====
-- The theorems about asio/echo/client.cc on runs that were asked for one connection.
use cc_snippets.Prelude.{pos, negsuc, ◌+◌, ◌≡◌, ◌≤◌, refl, true, List, [], ◌∷◌, ◌++◌}
use cc_snippets.EchoClient.{
  World, stopping, Event, advances, monitors, interrupts, fails, succeeds, greeting, step, run,
  start, launched, conns, session_at, session_step, handle_connect, handle_write, handle_read,
  handle_wait, on_error, start_write, monitor_step,
}
use cc_snippets.EchoClient.Totals.{total}
use cc_snippets.EchoClient.Counts.{past, live, lost, run_counts}
use cc_snippets.EchoClient.Settled.{AreBetween, is_midway, least, most, run_settled}
use cc_snippets.EchoClient.Monitoring.{run_stops}

-- Session 0 connects, writes and reads its echo; session 1 is refused.
abbrev events : List Event
events =
    advances 0 (succeeds [])
    ∷ advances 0 fails
    ∷ advances 1 fails
    ∷ advances 1 fails
    ∷ advances 0 (succeeds [])
    ∷ advances 0 (succeeds greeting)
    ∷ []

abbrev after : World
after = run (start (pos 1)) events

run_counts_example :
    (after.completed ≡ total past after.sessions)
    × (after.connected ≡ total live after.sessions)
    × (after.failed ≡ total lost after.sessions)
run_counts_example = run_counts (pos 1) events

run_settled_example :
    (after.completed ≡ after.connected + after.failed)
    × (after.completed ≤ launched (pos 1))
    × (1 ≤ launched (pos 1))
    × (launched (pos 1) ≤ 10)
unfolding AreBetween is_midway run step start launched conns session_at session_step handle_connect
    handle_write handle_read handle_wait on_error start_write least most
run_settled_example =
    run_settled (pos 1) events
      (refl, (refl, (refl, (refl, (refl, (refl, (refl, (refl, (refl, (refl, tt))))))))))

-- monitor enters its second loop, prints one rate, and returns when the program is interrupted
abbrev watched : List Event
watched =
    events
    ++ monitors ∷ monitors ∷ monitors ∷ monitors ∷ monitors ∷ monitors ∷ interrupts ∷ monitors
      ∷ monitors ∷ []

abbrev reported : World
reported = run (start (pos 1)) watched

-- A connection has just been made, and `connected` does not count it yet: monitor stops all.
abbrev early : List Event
early = advances 0 (succeeds []) ∷ monitors ∷ monitors ∷ monitors ∷ monitors ∷ []

abbrev uncounted : World
uncounted = run (start (pos 1)) early

run_stops_example :
    ((step uncounted monitors).monitor ≡ stopping 0)
    × (1 ≤ total past uncounted.sessions)
    × (total live uncounted.sessions ≡ 0)
unfolding run step start launched conns session_at session_step handle_connect start_write
    monitor_step
run_stops_example = run_stops (pos 1) 0 0 early uncounted refl refl refl

-- There the program stops, with a connection made and no error.
uncounted-stops : ((run uncounted (monitors ∷ monitors ∷ [])).stop ≡ true) × (uncounted.failed ≡ 0)
unfolding run step start launched conns session_at session_step handle_connect start_write
    monitor_step
uncounted-stops = (refl, refl)

-- An argument of -5 has ten sessions launched.
launched_negative : launched (negsuc 4) ≡ 10
unfolding launched conns
launched_negative = refl
