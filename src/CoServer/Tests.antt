-- ===== src/CoServer/Tests.antt =====
-- The theorems about asio/echo/co_server.cc on sessions with a timeout of 5.
use cc_snippets.Prelude.{
  ℕ, ◌+◌, ◌*◌, ◌≤◌, ◌<◌, ◌≡◌, refl, false, List, [], ◌∷◌, inr, ◌⊎◌, some, arith,
}
use cc_snippets.Channel.{nothing, fails, succeeds, fill}
use cc_snippets.Channel.Relayed.{IsRelaying}
use cc_snippets.CoServer.{
  Session, close, cancel, start_watchdog, watch, begin, resize_buffer, write_buffer,
  receive_with_watchdog, write_with_watchdog, start_with_watchdog, start, init, end,
  received_with_watchdog, resume_first, resume_expired, resume_echo, expire, is_kept, release,
  Event, ticks, completes, expires, resumes_first, resumes_expired, act, step, run,
}
use cc_snippets.CoServer.Echo.{run_echoes_coroutine}
use cc_snippets.CoServer.Claims.{run_held, run_patient_coroutine}
use cc_snippets.CoServer.Errors.{effects, effects_le}

-- It receives two bytes at 3 and then hangs: the wait expires at 5 and is set anew, to 8.
abbrev events : List Event
events =
    resumes_first
    ∷ ticks 3
    ∷ completes (succeeds (7 ∷ 8 ∷ []))
    ∷ ticks 2
    ∷ expires
    ∷ resumes_expired
    ∷ ticks 3
    ∷ expires
    ∷ []

abbrev hung : Session
hung = run (start false (init 5 0)) events

run_held_example :
    ((e : ℕ) × (hung.wait ≡ some e) × (e ≤ hung.clock + hung.timeout))
    ⊎ (0 < hung.spawned + hung.expired)
unfolding run step act release start start_with_watchdog receive_with_watchdog start_watchdog begin
    resume_first watch resume_echo received_with_watchdog write_with_watchdog fill expire
    resume_expired is_kept init resize_buffer write_buffer
run_held_example = run_held false 5 0 events hung refl refl

run_patient_coroutine_example :
    (hung.begun + hung.timeout ≤ hung.clock)
    ⊎ ((step hung resumes_expired).channel.pending ≡ nothing)
unfolding run step act release start start_with_watchdog receive_with_watchdog start_watchdog begin
    resume_first watch resume_echo received_with_watchdog write_with_watchdog fill expire
    resume_expired is_kept init close resize_buffer write_buffer
run_patient_coroutine_example = run_patient_coroutine 5 0 events hung resumes_expired refl refl refl

run_echoes_coroutine_example : IsRelaying hung.channel
run_echoes_coroutine_example = run_echoes_coroutine false 5 0 events

-- The write fails while the handler of the expired wait is in the queue.
abbrev ended : Session
ended = step hung (completes fails)

effects_le_example :
    effects ended (resumes_expired ∷ resumes_expired ∷ []) ≤ 3 * ended.spawned + ended.expired + 2
unfolding run step act release start start_with_watchdog receive_with_watchdog start_watchdog begin
    resume_first watch resume_echo received_with_watchdog write_with_watchdog fill expire
    resume_expired is_kept init close end cancel resize_buffer write_buffer
effects_le_example =
    effects_le ended (resumes_expired ∷ resumes_expired ∷ []) refl (inr (omega arith))
