-- ===== src/CoClient/Tests.antt =====
-- The theorems about asio/echo/co_client.cc on runs that were asked for one connection.
use cc_snippets.Prelude.{pos, ◌+◌, ◌≡◌, ◌≤◌, refl, List, [], ◌∷◌, sum_by}
use cc_snippets.EchoClient
use cc_snippets.EchoClient.{
  World, Event, advances, monitors, interrupts, fails, succeeds, greeting, start, launched, conns,
}
use cc_snippets.EchoClient.Totals.{total}
use cc_snippets.CoClient.{send, connect, sent, received, resume, resume_at, step, run}
use cc_snippets.CoClient.Counts.{echoing, over, run_tallies}
use cc_snippets.CoClient.Callbacks.{
  is_answered, is_answered_by, is_answered_at, is_answer, at_losing, run_callbacks,
}

-- Session 0 connects, writes and reads its echo; session 1 is refused.
abbrev events : List Event
events =
    advances 0 (succeeds [])
    ∷ advances 0 fails
    ∷ advances 1 fails
    ∷ advances 1 fails
    ∷ advances 0 (succeeds [])
    ∷ advances 0 (succeeds greeting)
    ∷ monitors
    ∷ []

run_callbacks_example : run (start (pos 1)) events ≡ EchoClient.run (start (pos 1)) events
unfolding at_losing is_answered is_answered_by is_answered_at is_answer step resume_at resume
    connect sent received send EchoClient.start_write start launched conns sum_by
run_callbacks_example = run_callbacks (start (pos 1)) events refl refl

-- and session 2 loses its connection, between its two counters
abbrev losing_events : List Event
losing_events = advances 2 (succeeds []) ∷ advances 2 fails ∷ advances 2 fails ∷ []

abbrev lost : World
lost = run (start (pos 1)) losing_events

run_tallies_example :
    (lost.connected ≡ total echoing lost.sessions)
    × (lost.failed ≡ total over lost.sessions)
    × (lost.connected + lost.failed ≤ lost.completed)
run_tallies_example = run_tallies (pos 1) losing_events
