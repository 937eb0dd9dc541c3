-- ===== src/EchoServer/Claims.antt =====
-- Properties of the runs of a session of asio/echo/server.cc.
use mathlib.Core.Path.{subst}
use cc_snippets.Prelude.{
  ℕ, ◌+◌, ◌≤◌, ◌<◌, ◌≡◌, ◌≢◌, refl, sym, ap, ◌∙◌, Bool, true, false, List, [], ◌∷◌, some, arith,
  inl, inr, ◌⊎◌, ltb,
}
use cc_snippets.Channel.{nothing}
use cc_snippets.EchoServer.{
  Session, Event, ticks, completes, expires, handles_wait, stop, receive_with_watchdog,
  send_with_watchdog, start_watchdog, start_timeout, receive_with_timeout, send_with_timeout, start,
  init, cancel, received_with_watchdog, sent_with_watchdog, received_with_timeout,
  sent_with_timeout, handle_wait, complete, expire, run_wait, step, run,
}
use cc_snippets.EchoServer.Invariant.{IsWatched, reached-IsWatched}

-- In every run of a session that start has begun, in either mode, while its socket is open an
-- operation is pending, and either the timer is set to a time at most the timeout from now, or the
-- handler of a wait that has expired is in the queue.
pub run_watched :
    (with_timeout : Bool) (timeout clock : ℕ) (es : List Event) (s : Session)
    → run (start with_timeout (init timeout clock)) es ≡ s
    → s.is_open ≡ true
    → (s.channel.pending ≢ nothing)
      × (((e : ℕ) × (s.wait ≡ some e) × (e ≤ s.clock + s.timeout)) ⊎ (0 < s.expired))
run_watched with_timeout timeout clock es s r o =
    let v = subst IsWatched r (reached-IsWatched with_timeout timeout clock es) in
    (elim v.busy [ inl c ↦ cc | inr n ↦ n ], elim v.watched [ inl c ↦ cc | inr w ↦ w ])

with_timeout-step : (s : Session) (e : Event) → (step s e).with_timeout ≡ s.with_timeout
unfolding step complete expire run_wait handle_wait stop start_watchdog received_with_watchdog
    sent_with_watchdog received_with_timeout sent_with_timeout cancel send_with_timeout
    send_with_watchdog receive_with_timeout receive_with_watchdog start_timeout
with_timeout-step s (ticks n) = refl
with_timeout-step s (completes c) = ground arith
with_timeout-step s expires = ground arith
with_timeout-step s handles_wait = ground arith

with_timeout-run : (s : Session) (es : List Event) → (run s es).with_timeout ≡ s.with_timeout
unfolding run
with_timeout-run s [] = refl
with_timeout-run s (e ∷ es) = with_timeout-run (step s e) es ∙ with_timeout-step s e

with_timeout-start : (timeout clock : ℕ) → (start false (init timeout clock)).with_timeout ≡ false
unfolding start start_watchdog receive_with_watchdog stop init
with_timeout-start timeout clock = ground arith

-- In every run of a session with a watchdog, the handler of an expired wait closes an open socket if
-- the pending operation was begun at least the timeout ago, and leaves it open if not.
pub run_patient :
    (timeout clock : ℕ) (es : List Event) (s : Session)
    → run (start false (init timeout clock)) es ≡ s
    → s.is_open ≡ true
    → 0 < s.expired
    → (step s handles_wait).is_open ≡ ltb s.clock (s.begun + s.timeout)
unfolding step run_wait handle_wait stop start_watchdog
run_patient timeout clock es s r o x =
    let v = subst IsWatched r (reached-IsWatched false timeout clock es) in
    let t : s.with_timeout ≡ false =
      ap (λ x. x.with_timeout) (sym r)
      ∙ (with_timeout-run _ es ∙ with_timeout-start timeout clock) in
    ground (arith, v.due)
