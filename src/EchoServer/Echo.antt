-- ===== src/EchoServer/Echo.antt =====
-- The bytes that a session of asio/echo/server.cc receives and sends.
use mathlib.Core.Path.{subst}
use cc_snippets.Prelude.{
  by-if, ℕ, zero, suc, ◌≡◌, refl, sym, Bool, true, false, List, [], ◌∷◌, Option, none, some, leb,
}
use cc_snippets.Channel.{Pending, nothing, receiving, sending, Completion, fails, succeeds}
use cc_snippets.Channel.Relayed.{
  IsRelayed, idle-IsRelayed, fill-IsRelayed, drain-IsRelayed, first-IsRelayed, IsRelaying,
  IsRelayed-IsRelaying,
}
use cc_snippets.EchoServer.{
  Session, Event, ticks, completes, expires, handles_wait, stop, receive_with_watchdog,
  send_with_watchdog, start_watchdog, start_timeout, receive_with_timeout, send_with_timeout, start,
  init, cancel, received_with_watchdog, sent_with_watchdog, received_with_timeout,
  sent_with_timeout, handle_wait, complete, expire, run_wait, step, run,
}

complete-IsRelayed :
    (s : Session) (p : Pending) (c : Completion)
    → s.channel.pending ≡ p
    → IsRelayed s.channel
    → IsRelayed (complete s p c).channel
unfolding complete received_with_watchdog sent_with_watchdog received_with_timeout sent_with_timeout
    cancel stop send_with_timeout send_with_watchdog receive_with_timeout receive_with_watchdog
    start_timeout
complete-IsRelayed s nothing c e v = v
complete-IsRelayed s receiving fails e v =
    by-if (λ (t : Session). IsRelayed t.channel) s.with_timeout _ _
      (λ t. idle-IsRelayed s.channel v) (λ t. idle-IsRelayed s.channel v)
complete-IsRelayed s receiving (succeeds bytes) e v =
    by-if (λ (t : Session). IsRelayed t.channel) s.with_timeout _ _
      (λ t. fill-IsRelayed s.channel bytes e v) (λ t. fill-IsRelayed s.channel bytes e v)
complete-IsRelayed s (sending n) fails e v =
    by-if (λ (t : Session). IsRelayed t.channel) s.with_timeout _ _
      (λ t. idle-IsRelayed s.channel v) (λ t. idle-IsRelayed s.channel v)
complete-IsRelayed s (sending n) (succeeds bytes) e v =
    by-if (λ (t : Session). IsRelayed t.channel) s.with_timeout _ _
      (λ t. drain-IsRelayed s.channel n e v) (λ t. drain-IsRelayed s.channel n e v)

-- A timer changes nothing of the channel.
expire-channel : (s : Session) (w : Option ℕ) → (expire s w).channel ≡ s.channel
unfolding expire
expire-channel s none = refl
expire-channel s (some e) =
    by-if (λ (t : Session). t.channel ≡ s.channel) (leb e s.clock) _ _ (λ k. refl) (λ k. refl)

start_watchdog-channel : (s : Session) → (start_watchdog s).channel ≡ s.channel
unfolding start_watchdog stop
start_watchdog-channel s =
    by-if (λ (t : Session). t.channel ≡ s.channel) (leb s.deadline s.clock) _ _ (λ k. refl)
      (λ k. refl)

run_wait-channel : (s : Session) (n : ℕ) → (run_wait s n).channel ≡ s.channel
unfolding run_wait handle_wait stop
run_wait-channel s zero = refl
run_wait-channel s (suc n) =
    by-if (λ (t : Session). t.channel ≡ s.channel) s.with_timeout _ _ (λ k. refl)
      (λ k. start_watchdog-channel (record s { expired = n }))

step-IsRelayed : (s : Session) (e : Event) → IsRelayed s.channel → IsRelayed (step s e).channel
unfolding step
step-IsRelayed s (ticks n) v = v
step-IsRelayed s (completes c) v = complete-IsRelayed s s.channel.pending c refl v
step-IsRelayed s expires v = subst IsRelayed (sym (expire-channel s s.wait)) v
step-IsRelayed s handles_wait v = subst IsRelayed (sym (run_wait-channel s s.expired)) v

run-IsRelayed : (s : Session) (es : List Event) → IsRelayed s.channel → IsRelayed (run s es).channel
unfolding run
run-IsRelayed s [] v = v
run-IsRelayed s (e ∷ es) v = run-IsRelayed (step s e) es (step-IsRelayed s e v)

start-IsRelayed :
    (with_timeout : Bool) (timeout clock : ℕ)
    → IsRelayed (start with_timeout (init timeout clock)).channel
unfolding start init receive_with_watchdog receive_with_timeout start_timeout
start-IsRelayed true timeout clock = first-IsRelayed (init timeout clock).channel refl
start-IsRelayed false timeout clock =
    subst IsRelayed (sym (start_watchdog-channel (receive_with_watchdog (init timeout clock))))
      (first-IsRelayed (init timeout clock).channel refl)

-- In every run of a session, in either mode, the bytes that it has sent back are the first of those
-- that it has received, in their order, and all but at most `buffer_size` of them; and all of them
-- while a receive is pending.
pub run_echoes :
    (with_timeout : Bool) (timeout clock : ℕ) (es : List Event)
    → IsRelaying (run (start with_timeout (init timeout clock)) es).channel
run_echoes with_timeout timeout clock es =
    IsRelayed-IsRelaying _ (run-IsRelayed _ es (start-IsRelayed with_timeout timeout clock))
