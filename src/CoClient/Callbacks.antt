-- ===== src/CoClient/Callbacks.antt =====
-- asio/echo/co_client.cc against asio/echo/client.cc.
use cc_snippets.Prelude.{
  ℕ, arith, sum_by-ge, sum_by-set, ◌≡◌, refl, ap, ◌∙◌, Bool, true, false, ◌&&◌, List, [], ◌∷◌,
  Option, none, some, get_elem?, set,
}
use cc_snippets.EchoClient
use cc_snippets.EchoClient.{
  Phase, connecting, writing, reading, waiting, refused, accepted, losing, ended, Session, World,
  Completion, fails, succeeds, Event, advances, monitors, interrupts, Monitor, monitor_step,
}
use cc_snippets.EchoClient.Totals.{total}
use cc_snippets.CoClient.{send, connect, sent, received, resume, resume_at, monitor, step, run}

-- no error of a write, a read or a wait
unfoldable pub is_answer : Phase → Completion → Bool
is_answer writing fails = false
is_answer reading fails = false
is_answer waiting fails = false
is_answer _ _ = true

unfoldable pub is_answered_at : Completion → Option Session → Bool
unfolding is_answer
is_answered_at c none = true
is_answered_at c (some s) = is_answer s.phase c

unfoldable pub is_answered_by : World → Event → Bool
unfolding is_answered_at
is_answered_by w (advances i c) = is_answered_at c (get_elem? w.sessions i)
is_answered_by w _ = true

-- every event of a run
unfoldable pub is_answered : World → List Event → Bool
unfolding is_answered_by
is_answered w [] = true
is_answered w (e ∷ es) = is_answered_by w e && is_answered (step w e) es

-- 1 for a session that is between its two counters after an error
unfoldable pub at_losing : Phase → ℕ
at_losing losing = 1
at_losing _ = 0

resume_lem :
    (w : World) (s : Session) (p : Phase) (c : Completion)
    → at_losing p ≡ 0
    → is_answer p c ≡ true
    → resume w s p c ≡ EchoClient.session_step w s p c
unfolding at_losing is_answer resume connect sent received send EchoClient.session_step
    EchoClient.handle_connect EchoClient.handle_write EchoClient.handle_read EchoClient.handle_wait
resume_lem w s connecting fails l h = refl
resume_lem w s connecting (succeeds b) l h = refl
resume_lem w s writing fails l h = cc
resume_lem w s writing (succeeds b) l h = refl
resume_lem w s reading fails l h = cc
resume_lem w s reading (succeeds b) l h = refl
resume_lem w s waiting fails l h = cc
resume_lem w s waiting (succeeds b) l h = refl
resume_lem w s refused c l h = refl
resume_lem w s accepted c l h = refl
resume_lem w s losing c l h = absurd (ground (arith, l))
resume_lem w s ended c l h = refl

quiet :
    (w : World) (i : ℕ) (s : Session)
    → get_elem? w.sessions i ≡ some s
    → total at_losing w.sessions ≡ 0
    → at_losing s.phase ≡ 0
quiet w i s g l = omega (arith, l, sum_by-ge (λ (t : Session). at_losing t.phase) w.sessions i s g)

resume_at_lem :
    (w : World) (i : ℕ) (c : Completion) (o : Option Session)
    → get_elem? w.sessions i ≡ o
    → total at_losing w.sessions ≡ 0
    → is_answered_at c o ≡ true
    → resume_at w i c o ≡ EchoClient.session_at w i c o
unfolding is_answered_at resume_at EchoClient.session_at
resume_at_lem w i c none g l h = refl
resume_at_lem w i c (some s) g l h =
    ap (λ (x : World × Session). record (x.0) { sessions = set w.sessions i x.1 })
      (resume_lem w s s.phase c (quiet w i s g l) h)

-- A session that is not losing its connection begins to after an error only.
resume-quiet :
    (w : World) (s : Session) (p : Phase) (c : Completion)
    → s.phase ≡ p
    → at_losing p ≡ 0
    → is_answer p c ≡ true
    → at_losing (resume w s p c).1.phase ≡ 0
unfolding at_losing is_answer resume connect sent received send EchoClient.start_write
resume-quiet w s connecting fails e l h = refl
resume-quiet w s connecting (succeeds b) e l h = refl
resume-quiet w s writing fails e l h = cc
resume-quiet w s writing (succeeds b) e l h = refl
resume-quiet w s reading fails e l h = cc
resume-quiet w s reading (succeeds b) e l h = refl
resume-quiet w s waiting c e l h = refl
resume-quiet w s refused c e l h = refl
resume-quiet w s accepted c e l h = refl
resume-quiet w s losing c e l h = refl
resume-quiet w s ended c e l h = rw e refl

resume_at-quiet :
    (w : World) (i : ℕ) (c : Completion) (o : Option Session)
    → get_elem? w.sessions i ≡ o
    → total at_losing w.sessions ≡ 0
    → is_answered_at c o ≡ true
    → total at_losing (resume_at w i c o).sessions ≡ 0
unfolding is_answered_at resume_at
resume_at-quiet w i c none g l h = l
resume_at-quiet w i c (some s) g l h =
    let s' = (resume w s s.phase c).1 in
    let q = resume-quiet w s s.phase c refl (quiet w i s g l) h in
    omega (arith, l, q, sum_by-set (λ (t : Session). at_losing t.phase) w.sessions i s s' g)

monitor_step-sessions : (w : World) (m : Monitor) → (monitor_step w m).sessions ≡ w.sessions
unfolding monitor_step
monitor_step-sessions w m = ground arith

step-quiet :
    (w : World) (e : Event)
    → total at_losing w.sessions ≡ 0
    → is_answered_by w e ≡ true
    → total at_losing (step w e).sessions ≡ 0
unfolding is_answered_by step monitor
step-quiet w (advances i c) l h = resume_at-quiet w i c (get_elem? w.sessions i) refl l h
step-quiet w monitors l h = ap (total at_losing) (monitor_step-sessions w w.monitor) ∙ l
step-quiet w interrupts l h = l

step_lem :
    (w : World) (e : Event)
    → total at_losing w.sessions ≡ 0
    → is_answered_by w e ≡ true
    → step w e ≡ EchoClient.step w e
unfolding is_answered_by step EchoClient.step monitor
step_lem w (advances i c) l h = resume_at_lem w i c (get_elem? w.sessions i) refl l h
step_lem w monitors l h = refl
step_lem w interrupts l h = refl

first : (a b : Bool) → (a && b) ≡ true → a ≡ true
first true b h = refl
first false b h = h

second : (a b : Bool) → (a && b) ≡ true → b ≡ true
second true b h = h
second false b h = cc

-- From every state in which no session is between its two counters after an error, the two clients
-- go through the same states as long as no write, read or wait ends with an error, whether or not
-- connections are refused, in every order of the steps of the sessions, of the monitor and of
-- SIGINT.
pub run_callbacks :
    (w : World) (es : List Event)
    → total at_losing w.sessions ≡ 0
    → is_answered w es ≡ true
    → run w es ≡ EchoClient.run w es
unfolding is_answered run EchoClient.run
run_callbacks w [] l h = refl
run_callbacks w (e ∷ es) l h =
    let a = first (is_answered_by w e) (is_answered (step w e) es) h in
    let b = second (is_answered_by w e) (is_answered (step w e) es) h in
    run_callbacks (step w e) es (step-quiet w e l a) b
    ∙ ap (λ v. EchoClient.run v es) (step_lem w e l a)
