-- ===== src/EchoClient/Settled.antt =====
-- The counters of asio/echo/client.cc between handlers, and how many sessions there are.
use cc_snippets.Prelude.{
  ℤ, pos, negsuc, ltb, if◌then◌else◌, sum_by, ℕ, ◌+◌, ◌≡◌, ◌≤◌, refl, ◌∙◌, Bool, true, false, List,
  [], ◌∷◌, arith, get_elem?, Option-cases, inl, inr, length, length-set, length-replicate,
}
use cc_snippets.EchoClient.{
  Phase, connecting, writing, reading, waiting, refused, accepted, losing, ended, Session, World,
  Event, advances, monitors, interrupts, step, run, start, session_at, monitor_step, conns,
  launched,
}
use cc_snippets.EchoClient.Totals.{total}
use cc_snippets.EchoClient.Counts.{past, live, lost, run-IsCounted, start-IsCounted}

-- whether a session stands in the middle of a handler
unfoldable pub is_midway : Phase → Bool
is_midway refused = true
is_midway accepted = true
is_midway losing = true
is_midway _ = false

past_lem : (p : Phase) → is_midway p ≡ false → past p ≡ live p + lost p
unfolding is_midway past live lost
past_lem connecting h = refl
past_lem writing h = refl
past_lem reading h = refl
past_lem waiting h = refl
past_lem ended h = refl
past_lem refused h = cc
past_lem accepted h = cc
past_lem losing h = cc

unfoldable pub AreBetween : List Session → Type 0
unfolding is_midway
AreBetween [] = Unit
AreBetween (s ∷ l) = (is_midway s.phase ≡ false) × AreBetween l

total-AreBetween : (l : List Session) → AreBetween l → total past l ≡ total live l + total lost l
unfolding AreBetween sum_by
total-AreBetween [] b = refl
total-AreBetween (s ∷ l) (h, b) = omega (arith, past_lem s.phase h, total-AreBetween l b)

past_le : (p : Phase) → past p ≤ 1
unfolding past
past_le p = ground arith

total-le : (l : List Session) → total past l ≤ length l
unfolding sum_by
total-le [] = omega arith
total-le (s ∷ l) = omega (arith, past_le s.phase, total-le l)

step-sessions : (w : World) (e : Event) → length (step w e).sessions ≡ length w.sessions
unfolding step session_at monitor_step
step-sessions w (advances i c) = elim (Option-cases (get_elem? w.sessions i)) [
  | inl e ↦ rw e refl
  | inr (s, e) ↦ rw e (length-set w.sessions i _)
]
step-sessions w monitors = ground arith
step-sessions w interrupts = refl

run-sessions : (w : World) (es : List Event) → length (run w es).sessions ≡ length w.sessions
unfolding run
run-sessions w [] = refl
run-sessions w (e ∷ es) = run-sessions (step w e) es ∙ step-sessions w e

-- How many sessions may be launched for an argument: as many as it says, and at most 9 more; 10 for
-- -1 to -9, since -5 / 10 is 0 and -5 % 10 is not; and none below.
unfoldable pub least : ℤ → ℕ
least (pos n) = n
least (negsuc n) = if ltb n 9 then 10 else 0

unfoldable pub most : ℤ → ℕ
most (pos n) = n + 9
most (negsuc n) = if ltb n 9 then 10 else 0

launched-bounds : (n : ℤ) → (least n ≤ launched n) × (launched n ≤ most n)
unfolding launched conns least most
launched-bounds (pos n) = (ground arith, ground arith)
launched-bounds (negsuc n) = (ground arith, ground arith)

-- After every sequence of steps that leaves no session in the middle of a handler, the sessions
-- whose connection has been tried are those that `connected` and those that `failed` counts, and
-- `completed` is at most the number of sessions that the ten threads launch. That is at least the
-- number asked for and at most 9 more, for an argument that is not negative; for -1 to -9 it is 10,
-- and for less it is 0.
pub run_settled :
    (n : ℤ) (es : List Event)
    → AreBetween (run (start n) es).sessions
    → let w = run (start n) es in
      (w.completed ≡ w.connected + w.failed)
      × (w.completed ≤ launched n)
      × (least n ≤ launched n)
      × (launched n ≤ most n)
run_settled n es b =
    let v = run-IsCounted (start n) es (start-IsCounted n) in
    let size : length (run (start n) es).sessions ≡ launched n =
      run-sessions (start n) es ∙ (unfold start in length-replicate (launched n) _) in
    (
      omega (arith, v.completed, v.connected, v.failed, total-AreBetween _ b),
      omega (arith, v.completed, total-le (run (start n) es).sessions, size),
      (launched-bounds n).0,
      (launched-bounds n).1,
    )
