-- ===== src/EchoClient/Monitoring.antt =====
-- What monitor of asio/echo/client.cc finds in the counters that the sessions change under it.
use mathlib.Core.Path.{subst}
use cc_snippets.Prelude.{
  ℤ, pos, negsuc, pos_part, false, ℕ, ◌+◌, ◌/◌, ◌≡◌, ◌≤◌, refl, sym, ap, ◌∙◌, true, List, [], ◌∷◌,
  none, some, arith, get_elem?, if◌then◌else◌, Option-cases, Bool-cases, inl, inr, length, ◌⊎◌,
  ◌==◌,
}
use cc_snippets.EchoClient.{
  Phase, Session, World, Completion, session_step, session_at, monitor_step, is_below, Event,
  advances, monitors, interrupts, step, run, start, on_error, handle_connect, handle_write,
  handle_read, handle_wait, Monitor, polling, testing_connected, measuring, stopping, summing,
  returned, testing_stop, testing_completed, leaving,
}
use cc_snippets.EchoClient.Totals.{total}
use cc_snippets.EchoClient.Counts.{past, live, IsCounted, run-IsCounted, start-IsCounted}

abbrev pub sum : List ℕ → ℕ
sum [] = 0
sum (x ∷ l) = x + sum l

-- What a step of a session or of the signal handler may do to what monitor reads.
record Grows (w w' : World) : Type 0 where
  connections : w'.connections ≡ w.connections
  stop : (w'.stop ≡ w.stop) ⊎ (w'.stop ≡ true)
  echoes : w.echoes ≤ w'.echoes
  completed : w.completed ≤ w'.completed
  monitor : w'.monitor ≡ w.monitor
  rates : w'.rates ≡ w.rates

session_step-Grows :
    (w : World) (s : Session) (p : Phase) (c : Completion) → Grows w (session_step w s p c).0
unfolding session_step handle_connect handle_write handle_read handle_wait on_error
session_step-Grows w s p c = record {
  connections = ground arith;
  stop = inl (ground arith);
  echoes = ground arith;
  completed = ground arith;
  monitor = ground arith;
  rates = ground arith;
}

-- The invariant of monitor, by where it stands.
unfoldable pub MonitorAt : World → Monitor → Type 0
MonitorAt w testing_stop = w.rates ≡ []
MonitorAt w testing_completed = w.rates ≡ []
MonitorAt w leaving = (w.rates ≡ []) × ((w.stop ≡ true) ⊎ (pos_part w.connections ≤ w.completed))
MonitorAt w (polling last times) =
    (last ≤ w.echoes)
    × (sum w.rates ≡ last)
    × (length w.rates ≡ times)
    × (pos_part w.connections ≤ w.completed)
MonitorAt w (testing_connected last times) =
    (last ≤ w.echoes)
    × (sum w.rates ≡ last)
    × (length w.rates ≡ times)
    × (pos_part w.connections ≤ w.completed)
MonitorAt w (measuring last times) =
    (last ≤ w.echoes)
    × (sum w.rates ≡ last)
    × (length w.rates ≡ times)
    × (pos_part w.connections ≤ w.completed)
MonitorAt w (stopping times) = (sum w.rates ≤ w.echoes) × (length w.rates ≡ times)
MonitorAt w (summing times) = (sum w.rates ≤ w.echoes) × (length w.rates ≡ times)
MonitorAt w (returned none) = w.rates ≡ []
MonitorAt w (returned (some (all, rate))) =
    (sum w.rates ≤ all)
    × (all ≤ w.echoes)
    × (rate ≡ (if length w.rates == 0 then 0 else all / length w.rates))

Grows-MonitorAt : (w w' : World) (m : Monitor) → Grows w w' → MonitorAt w m → MonitorAt w' m
unfolding MonitorAt
Grows-MonitorAt w w' testing_stop g h = g.rates ∙ h
Grows-MonitorAt w w' testing_completed g h = g.rates ∙ h
Grows-MonitorAt w w' leaving g (h, k) = (
  g.rates ∙ h,
  elim k [
    | inl s ↦ inl (ground (arith, g.stop))
    | inr le ↦ inr (omega (arith, ap pos_part g.connections, g.completed))
  ],
)
Grows-MonitorAt w w' (polling l t) g h =
    rw g.rates
      (omega (arith, g.echoes), h.1, h.2, omega (arith, ap pos_part g.connections, g.completed))
Grows-MonitorAt w w' (testing_connected l t) g h =
    rw g.rates
      (omega (arith, g.echoes), h.1, h.2, omega (arith, ap pos_part g.connections, g.completed))
Grows-MonitorAt w w' (measuring l t) g h =
    rw g.rates
      (omega (arith, g.echoes), h.1, h.2, omega (arith, ap pos_part g.connections, g.completed))
Grows-MonitorAt w w' (stopping t) g h = rw g.rates (omega (arith, g.echoes), h.1)
Grows-MonitorAt w w' (summing t) g h = rw g.rates (omega (arith, g.echoes), h.1)
Grows-MonitorAt w w' (returned none) g h = g.rates ∙ h
Grows-MonitorAt w w' (returned (some (all, rate))) g h =
    rw g.rates (h.0, omega (arith, g.echoes), h.2)

is_below-le : (n : ℕ) (c : ℤ) → is_below n c ≡ false → pos_part c ≤ n
unfolding is_below
is_below-le n (pos m) h = ground arith
is_below-le n (negsuc m) h = omega arith

monitor_step-MonitorAt :
    (w : World) (m : Monitor)
    → w.monitor ≡ m
    → MonitorAt w m
    → MonitorAt (monitor_step w m) (monitor_step w m).monitor
unfolding MonitorAt monitor_step
monitor_step-MonitorAt w testing_stop e h = elim (Bool-cases w.stop) [
  | inl s ↦ rw s (h, inl refl)
  | inr s ↦ rw s h
]
monitor_step-MonitorAt w testing_completed e h =
    elim (Bool-cases (is_below w.completed w.connections)) [
      | inl s ↦ rw s h
      | inr s ↦ rw s (h, inr (is_below-le w.completed w.connections s))
    ]
monitor_step-MonitorAt w leaving e (h, k) = elim (Bool-cases w.stop) [
  | inl s ↦ rw s h
  | inr s ↦ rw s (omega arith, ap sum h, ap length h, ground arith)
]
monitor_step-MonitorAt w (polling l t) e h = elim (Bool-cases w.stop) [
  | inl s ↦ rw s (omega (arith, h.0, h.1), h.2)
  | inr s ↦ rw s h
]
monitor_step-MonitorAt w (testing_connected l t) e h = elim (Bool-cases (w.connected == 0)) [
  | inl s ↦ rw s (omega (arith, h.0, h.1), h.2)
  | inr s ↦ rw s h
]
monitor_step-MonitorAt w (measuring l t) e h =
    (omega arith, omega (arith, h.0, h.1), omega (arith, h.2), h.3)
monitor_step-MonitorAt w (stopping t) e h = h
monitor_step-MonitorAt w (summing t) e h = (h.0, omega arith, rw h.1 refl)
monitor_step-MonitorAt w (returned r) e h = rw e h

step-MonitorAt :
    (w : World) (e : Event) → MonitorAt w w.monitor → MonitorAt (step w e) (step w e).monitor
unfolding step session_at MonitorAt
step-MonitorAt w (advances i c) h = elim (Option-cases (get_elem? w.sessions i)) [
  | inl e ↦ rw e h
  | inr (s, e) ↦
      let g = session_step-Grows w s s.phase c in
      let k : MonitorAt (session_at w i c (some s)) w.monitor =
        Grows-MonitorAt w (session_at w i c (some s)) w.monitor
          (record {
            connections = g.connections;
            stop = g.stop;
            echoes = g.echoes;
            completed = g.completed;
            monitor = g.monitor;
            rates = g.rates;
          })
          h in
      rw (e, g.monitor) k
]
step-MonitorAt w monitors h = monitor_step-MonitorAt w w.monitor refl h
step-MonitorAt w interrupts h =
    Grows-MonitorAt w (record w { stop = true }) w.monitor
      (record {
        connections = refl;
        stop = inr refl;
        echoes = omega arith;
        completed = omega arith;
        monitor = refl;
        rates = refl;
      })
      h

run-MonitorAt :
    (w : World) (es : List Event) → MonitorAt w w.monitor → MonitorAt (run w es) (run w es).monitor
unfolding run
run-MonitorAt w [] h = h
run-MonitorAt w (e ∷ es) h = run-MonitorAt (step w e) es (step-MonitorAt w e h)

start-MonitorAt : (n : ℤ) → MonitorAt (start n) (start n).monitor
unfolding start MonitorAt
start-MonitorAt n = refl

connections-step : (w : World) (e : Event) → (step w e).connections ≡ w.connections
unfolding step session_at monitor_step
connections-step w (advances i c) = elim (Option-cases (get_elem? w.sessions i)) [
  | inl e ↦ rw e refl
  | inr (s, e) ↦ rw e (Grows.connections (session_step-Grows w s s.phase c))
]
connections-step w monitors = ground arith
connections-step w interrupts = refl

connections-run : (w : World) (es : List Event) → (run w es).connections ≡ w.connections
unfolding run
connections-run w [] = refl
connections-run w (e ∷ es) = connections-run (step w e) es ∙ connections-step w e

-- When monitor returns with a total and a rate, the rates that it printed before add up to at most
-- the total, the total is at most the number of echoes, and the rate is the total by the number of
-- rates printed, or 0 if none was.
run_report :
    (n : ℤ) (all rate : ℕ) (es : List Event)
    → (run (start n) es).monitor ≡ returned (some (all, rate))
    → let w = run (start n) es in
      (sum w.rates ≤ all)
      × (all ≤ w.echoes)
      × (rate ≡ (if length w.rates == 0 then 0 else all / length w.rates))
unfolding MonitorAt
run_report n all rate es e =
    subst (MonitorAt (run (start n) es)) e (run-MonitorAt (start n) es (start-MonitorAt n))

-- When monitor is about to test `connected` and it is 0, then it goes on to stop the program, at
-- least as many connections as were asked for have been tried, and no session is writing, reading,
-- waiting or about to leave the count. A session in handle_connect is not excluded.
pub run_stops :
    (n : ℤ) (last times : ℕ) (es : List Event) (w : World)
    → run (start n) es ≡ w
    → w.monitor ≡ testing_connected last times
    → w.connected ≡ 0
    → ((step w monitors).monitor ≡ stopping times)
      × (pos_part n ≤ total past w.sessions)
      × (total live w.sessions ≡ 0)
unfolding MonitorAt step monitor_step
run_stops n last times es w e m z =
    let h : MonitorAt w (testing_connected last times) =
      subst (MonitorAt w) m
        (subst (λ v. MonitorAt v v.monitor) e (run-MonitorAt (start n) es (start-MonitorAt n))) in
    let c = subst IsCounted e (run-IsCounted (start n) es (start-IsCounted n)) in
    let k : w.connections ≡ n =
      ap (λ v. v.connections) (sym e) ∙ (unfold start in connections-run (start n) es) in
    (rw (m, z) refl, omega (arith, h.3, c.completed, ap pos_part k), sym c.connected ∙ z)
