-- ===== src/CoClient/Counts.antt =====
-- What the counters of asio/echo/co_client.cc count.
use cc_snippets.Prelude.{
  ℤ, sum_by, sum_by-ge, sum_by-replicate, ℕ, ◌+◌, ◌≡◌, ◌≤◌, refl, sym, List, [], ◌∷◌, some, arith,
  get_elem?, set, Option-cases, inl, inr,
}
use cc_snippets.EchoClient.{
  Phase, connecting, writing, reading, waiting, refused, accepted, losing, ended, Session, World,
  Completion, fails, succeeds, Event, advances, monitors, interrupts, start, start_write, launched,
}
use cc_snippets.EchoClient.Totals.{total, IsTotal, move-IsTotal, monitor_step-IsTotal}
use cc_snippets.CoClient.{
  send, lose, connect, sent, received, resume, resume_at, monitor, step, run,
}

-- 1 for a phase that a counter counts, and 0 for another
unfoldable pub tried : Phase → ℕ
tried connecting = 0
tried _ = 1

unfoldable pub echoing : Phase → ℕ
echoing writing = 1
echoing reading = 1
echoing waiting = 1
echoing _ = 0

unfoldable pub over : Phase → ℕ
over ended = 1
over _ = 0

abbrev IsCounted : World → Type 0
IsCounted w = IsTotal tried echoing over w

-- A step changes each counter by what the phase of its session changes.
resume-shift :
    (w : World) (s : Session) (p : Phase) (c : Completion)
    → s.phase ≡ p
    → echoing p ≤ w.connected
    → let (w', s') = resume w s p c in
      (w'.completed + tried s.phase ≡ w.completed + tried s'.phase)
      × (w'.connected + echoing s.phase ≡ w.connected + echoing s'.phase)
      × (w'.failed + over s.phase ≡ w.failed + over s'.phase)
unfolding resume connect sent received lose send start_write tried echoing over
resume-shift w s connecting fails e h =
    (ground (arith, e, h), ground (arith, e, h), ground (arith, e, h))
resume-shift w s connecting (succeeds bytes) e h =
    (ground (arith, e, h), ground (arith, e, h), ground (arith, e, h))
resume-shift w s writing fails e h =
    (ground (arith, e, h), ground (arith, e, h), ground (arith, e, h))
resume-shift w s writing (succeeds bytes) e h =
    (ground (arith, e, h), ground (arith, e, h), ground (arith, e, h))
resume-shift w s reading fails e h =
    (ground (arith, e, h), ground (arith, e, h), ground (arith, e, h))
resume-shift w s reading (succeeds bytes) e h =
    (ground (arith, e, h), ground (arith, e, h), ground (arith, e, h))
resume-shift w s waiting c e h = (ground (arith, e, h), ground (arith, e, h), ground (arith, e, h))
resume-shift w s refused c e h = (ground (arith, e, h), ground (arith, e, h), ground (arith, e, h))
resume-shift w s accepted c e h = (ground (arith, e, h), ground (arith, e, h), ground (arith, e, h))
resume-shift w s losing c e h = (ground (arith, e, h), ground (arith, e, h), ground (arith, e, h))
resume-shift w s ended c e h = (ground (arith, e, h), ground (arith, e, h), ground (arith, e, h))

resume-IsCounted :
    (w : World) (i : ℕ) (s : Session) (c : Completion)
    → get_elem? w.sessions i ≡ some s
    → IsCounted w
    → let (w', s') = resume w s s.phase c in
      IsCounted (record w' { sessions = set w.sessions i s' })
resume-IsCounted w i s c g v =
    let some_live : echoing s.phase ≤ w.connected =
      omega (arith, sum_by-ge (λ (s : Session). echoing s.phase) w.sessions i s g, v.connected) in
    let (a, b, d) = resume-shift w s s.phase c refl some_live in
    let (w', s') = resume w s s.phase c in move-IsTotal tried echoing over w w' i s s' g v a b d

step-IsCounted : (w : World) (e : Event) → IsCounted w → IsCounted (step w e)
unfolding step resume_at monitor
step-IsCounted w (advances i c) v = elim (Option-cases (get_elem? w.sessions i)) [
  | inl e ↦ rw e v
  | inr (s, e) ↦ rw e (resume-IsCounted w i s c e v)
]
step-IsCounted w monitors v = monitor_step-IsTotal tried echoing over w w.monitor v
step-IsCounted w interrupts v = record {
  completed = v.completed;
  connected = v.connected;
  failed = v.failed;
}

run-IsCounted : (w : World) (es : List Event) → IsCounted w → IsCounted (run w es)
unfolding run
run-IsCounted w [] v = v
run-IsCounted w (e ∷ es) v = run-IsCounted (step w e) es (step-IsCounted w e v)

start-IsCounted : (n : ℤ) → IsCounted (start n)
unfolding start tried echoing over
start-IsCounted n = record {
  completed = sym (sum_by-replicate (λ (s : Session). tried s.phase) (launched n) _ refl);
  connected = sym (sum_by-replicate (λ (s : Session). echoing s.phase) (launched n) _ refl);
  failed = sym (sum_by-replicate (λ (s : Session). over s.phase) (launched n) _ refl);
}

apart : (p : Phase) → echoing p + over p ≤ tried p
unfolding tried echoing over
apart p = ground arith

total-apart : (l : List Session) → total echoing l + total over l ≤ total tried l
unfolding sum_by
total-apart [] = omega arith
total-apart (s ∷ l) = omega (arith, apart s.phase, total-apart l)

-- After every sequence of steps of the program, `connected` is the number of sessions that write,
-- read or wait, `failed` that of the sessions whose coroutine has ended, and together they are at
-- most `completed`, also while a session stands between two counters.
pub run_tallies :
    (n : ℤ) (es : List Event)
    → let w = run (start n) es in
      (w.connected ≡ total echoing w.sessions)
      × (w.failed ≡ total over w.sessions)
      × (w.connected + w.failed ≤ w.completed)
run_tallies n es =
    let v = run-IsCounted (start n) es (start-IsCounted n) in
    (
      v.connected,
      v.failed,
      omega (arith, v.connected, v.failed, v.completed, total-apart (run (start n) es).sessions),
    )
