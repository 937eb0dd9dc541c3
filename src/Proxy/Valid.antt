-- ===== src/Proxy/Valid.antt =====
-- The invariant of a session of asio/proxy/server.cc in every state that a run reaches.
use cc_snippets.Prelude.{
  ℕ, ◌+◌, ◌≤◌, ◌≡◌, ◌≢◌, refl, Bool, true, false, List, [], ◌∷◌, arith, inl, inr, ◌⊎◌,
}
use cc_snippets.Channel.{nothing, Completion, fails, succeeds}
use cc_snippets.Proxy.Watching
use cc_snippets.Proxy.Watching.{Watchdog}
use cc_snippets.Proxy.{
  Relay, Session, begin, stop, receive_from_client, receive_from_server, up_watched, down_watched,
  start_watchdogs, start, handle_connect, Event, ticks, connects, completes_up, completes_down,
  expires_up, expires_down, handles_up, handles_down, connect, step, run,
}
use cc_snippets.Proxy.Watched.{IsLive, tick-IsLive, expire-IsLive, start-IsLive, run_wait-IsLive}
use cc_snippets.Proxy.Invariant.{
  IsValid, IsChecked, up_watched-IsValid, down_watched-IsValid, complete_up-IsValid,
  complete_down-IsValid,
}

-- A direction whose first operation has just begun.
IsBegun : ℕ → ℕ → Relay → Type 0
IsBegun clock timeout r =
    (r.channel.pending ≢ nothing) × (r.watchdog.deadline ≡ r.begun + timeout) × (r.begun ≤ clock)

down_started :
    (s : Session) (x : Watchdog × Bool)
    → s.client_open ≡ s.server_open
    → (x.1 ≡ true) ⊎ IsLive s.clock s.timeout (record (s.up) { watchdog = x.0 })
    → IsBegun s.clock s.timeout s.down
    → IsValid (
        down_watched
          (up_watched s x)
          (Watching.start (up_watched s x).clock (up_watched s x).down.watchdog))
unfolding up_watched stop IsChecked IsBegun
down_started s (w, true) t u d =
    down_watched-IsValid (up_watched s (w, true)) _ refl (inr (inl refl))
down_started s (w, false) t (inl e) d = cc
down_started s (w, false) t (inr u) (b, e, p) =
    down_watched-IsValid (up_watched s (w, false)) _ t
      (inr (inr (u, start-IsLive s.clock s.timeout s.down b e p)))

start_watchdogs-IsValid :
    (s : Session)
    → s.client_open ≡ s.server_open
    → IsBegun s.clock s.timeout s.up
    → IsBegun s.clock s.timeout s.down
    → IsValid (start_watchdogs s)
unfolding start_watchdogs IsBegun
start_watchdogs-IsValid s t (b, e, p) d =
    down_started s (Watching.start s.clock s.up.watchdog) t
      (start-IsLive s.clock s.timeout s.up b e p) d

connect-IsValid : (s : Session) (b : Bool) (c : Completion) → IsValid s → IsValid (connect s b c)
unfolding connect handle_connect receive_from_client receive_from_server begin IsBegun
    Watching.delay
connect-IsValid s false c v = v
connect-IsValid s true fails v = record { together = refl; live = inr (inl refl) }
connect-IsValid s true (succeeds bytes) v =
    start_watchdogs-IsValid
      (receive_from_server (receive_from_client (record s { connecting = false }))) v.together
      ((λ e. cc), refl, omega arith) ((λ e. cc), refl, omega arith)

step-IsValid : (s : Session) (e : Event) → IsValid s → IsValid (step s e)
unfolding step IsChecked
step-IsValid s (ticks n) v = record {
  together = v.together;
  live = elim v.live [
    | inl o ↦ inl o
    | inr (inl o) ↦ inr (inl o)
    | inr (inr (u, d)) ↦
        inr (inr (tick-IsLive s.clock s.timeout s.up n u, tick-IsLive s.clock s.timeout s.down n d))
  ];
}
step-IsValid s (connects c) v = connect-IsValid s s.connecting c v
step-IsValid s (completes_up c) v = complete_up-IsValid s s.up.channel.pending c v
step-IsValid s (completes_down c) v = complete_down-IsValid s s.down.channel.pending c v
step-IsValid s expires_up v = record {
  together = v.together;
  live = elim v.live [
    | inl o ↦ inl o
    | inr (inl o) ↦ inr (inl o)
    | inr (inr (u, d)) ↦ inr (inr (expire-IsLive s.clock s.timeout s.up u, d))
  ];
}
step-IsValid s expires_down v = record {
  together = v.together;
  live = elim v.live [
    | inl o ↦ inl o
    | inr (inl o) ↦ inr (inl o)
    | inr (inr (u, d)) ↦ inr (inr (u, expire-IsLive s.clock s.timeout s.down d))
  ];
}
step-IsValid s handles_up v =
    up_watched-IsValid s (Watching.run_wait s.clock s.up.watchdog) v.together (elim v.live [
      | inl o ↦ inl o
      | inr (inl o) ↦ inr (inl o)
      | inr (inr (u, d)) ↦ inr (inr (run_wait-IsLive s.clock s.timeout s.up u, d))
    ])
step-IsValid s handles_down v =
    down_watched-IsValid s (Watching.run_wait s.clock s.down.watchdog) v.together (elim v.live [
      | inl o ↦ inl o
      | inr (inl o) ↦ inr (inl o)
      | inr (inr (u, d)) ↦ inr (inr (u, run_wait-IsLive s.clock s.timeout s.down d))
    ])

run-IsValid : (s : Session) (es : List Event) → IsValid s → IsValid (run s es)
unfolding run
run-IsValid s [] v = v
run-IsValid s (e ∷ es) v = run-IsValid (step s e) es (step-IsValid s e v)

start-IsValid : (timeout clock : ℕ) → IsValid (start timeout clock)
unfolding start
start-IsValid timeout clock = record { together = refl; live = inl refl }

pub reached-IsValid : (timeout clock : ℕ) (es : List Event) → IsValid (run (start timeout clock) es)
reached-IsValid timeout clock es = run-IsValid _ es (start-IsValid timeout clock)
