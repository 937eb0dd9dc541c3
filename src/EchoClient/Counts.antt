-- ===== src/EchoClient/Counts.antt =====
-- What the counters of asio/echo/client.cc count.
use cc_snippets.Prelude.{
  ℤ, sum_by-ge, sum_by-replicate, ℕ, ◌+◌, ◌≡◌, ◌≤◌, refl, sym, List, [], ◌∷◌, some, arith,
  get_elem?, set, Option-cases, inl, inr,
}
use cc_snippets.EchoClient.{
  Phase, connecting, writing, reading, waiting, refused, accepted, losing, ended, Session, World,
  Completion, fails, succeeds, session_step, session_at, Event, advances, monitors, interrupts,
  step, run, start, start_write, on_error, handle_connect, handle_write, handle_read, handle_wait,
  launched,
}
use cc_snippets.EchoClient.Totals.{total, IsTotal, move-IsTotal, monitor_step-IsTotal}

-- 1 for a phase that a counter counts, and 0 for another
unfoldable pub past : Phase → ℕ
past connecting = 0
past _ = 1

unfoldable pub live : Phase → ℕ
live writing = 1
live reading = 1
live waiting = 1
live losing = 1
live _ = 0

unfoldable pub lost : Phase → ℕ
lost losing = 1
lost ended = 1
lost _ = 0

-- The counters say how many sessions there are of each kind.
abbrev pub IsCounted : World → Type 0
IsCounted w = IsTotal past live lost w

-- A step changes each counter by what the phase of its session changes.
session_step-shift :
    (w : World) (s : Session) (p : Phase) (c : Completion)
    → s.phase ≡ p
    → live p ≤ w.connected
    → let (w', s') = session_step w s p c in
      (w'.completed + past s.phase ≡ w.completed + past s'.phase)
      × (w'.connected + live s.phase ≡ w.connected + live s'.phase)
      × (w'.failed + lost s.phase ≡ w.failed + lost s'.phase)
unfolding session_step handle_connect handle_write handle_read handle_wait start_write on_error past
    live lost
session_step-shift w s connecting fails e h =
    (ground (arith, e, h), ground (arith, e, h), ground (arith, e, h))
session_step-shift w s connecting (succeeds bytes) e h =
    (ground (arith, e, h), ground (arith, e, h), ground (arith, e, h))
session_step-shift w s writing fails e h =
    (ground (arith, e, h), ground (arith, e, h), ground (arith, e, h))
session_step-shift w s writing (succeeds bytes) e h =
    (ground (arith, e, h), ground (arith, e, h), ground (arith, e, h))
session_step-shift w s reading fails e h =
    (ground (arith, e, h), ground (arith, e, h), ground (arith, e, h))
session_step-shift w s reading (succeeds bytes) e h =
    (ground (arith, e, h), ground (arith, e, h), ground (arith, e, h))
session_step-shift w s waiting fails e h =
    (ground (arith, e, h), ground (arith, e, h), ground (arith, e, h))
session_step-shift w s waiting (succeeds bytes) e h =
    (ground (arith, e, h), ground (arith, e, h), ground (arith, e, h))
session_step-shift w s refused c e h =
    (ground (arith, e, h), ground (arith, e, h), ground (arith, e, h))
session_step-shift w s accepted c e h =
    (ground (arith, e, h), ground (arith, e, h), ground (arith, e, h))
session_step-shift w s losing c e h =
    (ground (arith, e, h), ground (arith, e, h), ground (arith, e, h))
session_step-shift w s ended c e h =
    (ground (arith, e, h), ground (arith, e, h), ground (arith, e, h))

session_step-IsCounted :
    (w : World) (i : ℕ) (s : Session) (c : Completion)
    → get_elem? w.sessions i ≡ some s
    → IsCounted w
    → let (w', s') = session_step w s s.phase c in
      IsCounted (record w' { sessions = set w.sessions i s' })
session_step-IsCounted w i s c g v =
    let some_live : live s.phase ≤ w.connected =
      omega (arith, sum_by-ge (λ (s : Session). live s.phase) w.sessions i s g, v.connected) in
    let (a, b, d) = session_step-shift w s s.phase c refl some_live in
    let (w', s') = session_step w s s.phase c in move-IsTotal past live lost w w' i s s' g v a b d

step-IsCounted : (w : World) (e : Event) → IsCounted w → IsCounted (step w e)
unfolding step session_at
step-IsCounted w (advances i c) v = elim (Option-cases (get_elem? w.sessions i)) [
  | inl e ↦ rw e v
  | inr (s, e) ↦ rw e (session_step-IsCounted w i s c e v)
]
step-IsCounted w monitors v = monitor_step-IsTotal past live lost w w.monitor v
step-IsCounted w interrupts v = record {
  completed = v.completed;
  connected = v.connected;
  failed = v.failed;
}

pub run-IsCounted : (w : World) (es : List Event) → IsCounted w → IsCounted (run w es)
unfolding run
run-IsCounted w [] v = v
run-IsCounted w (e ∷ es) v = run-IsCounted (step w e) es (step-IsCounted w e v)

pub start-IsCounted : (n : ℤ) → IsCounted (start n)
unfolding start past live lost
start-IsCounted n = record {
  completed = sym (sum_by-replicate (λ (s : Session). past s.phase) (launched n) _ refl);
  connected = sym (sum_by-replicate (λ (s : Session). live s.phase) (launched n) _ refl);
  failed = sym (sum_by-replicate (λ (s : Session). lost s.phase) (launched n) _ refl);
}

-- After every sequence of steps of the program, `completed` is the number of sessions whose
-- connection has been tried, `connected` that of the sessions that write, read, wait or are about
-- to leave the count, and `failed` that of the sessions that have ended or are about to leave.
pub run_counts :
    (n : ℤ) (es : List Event)
    → let w = run (start n) es in
      (w.completed ≡ total past w.sessions)
      × (w.connected ≡ total live w.sessions)
      × (w.failed ≡ total lost w.sessions)
run_counts n es =
    let v = run-IsCounted (start n) es (start-IsCounted n) in (v.completed, v.connected, v.failed)
