-- ===== src/CoServer/Claims.antt =====
-- Properties of the runs of a session of asio/echo/co_server.cc.
use mathlib.Core.Path.{subst}
use cc_snippets.Prelude.{
  ℕ, zero, suc, ◌+◌, ◌≤◌, ◌<◌, ◌≡◌, refl, sym, ap, ◌∙◌, Bool, true, false, List, [], ◌∷◌, Option,
  none, some, arith, if◌then◌else◌, by-if, Bool-cases, inl, inr, ◌⊎◌,
}
use cc_snippets.Channel.{Pending, nothing, receiving, sending, Completion, fails, succeeds, Channel}
use cc_snippets.CoServer.{
  Session, start_timeout, wait, close, cancel, start_watchdog, watch, begin, receive_with_timeout,
  write_with_timeout, resize_buffer, write_buffer, receive_with_watchdog, write_with_watchdog,
  start_with_watchdog, start, init, end, received_with_timeout, sent_with_timeout,
  received_with_watchdog, sent_with_watchdog, resume_first, resume_expired, resume_echo, expire,
  is_kept, release, Event, ticks, completes, expires, resumes_first, resumes_expired, act, step,
  run,
}
use cc_snippets.CoServer.Echo.{release-channel}
use cc_snippets.CoServer.Invariant.{IsArmed, IsValid, reached-IsValid, watching}

-- In every run of a session that start has begun, in either mode, while its socket is open a
-- coroutine waits for a timer that is set to a time at most the timeout from now, or is in the queue
-- to be run; so no session keeps its socket with no coroutine left to close it.
pub run_held :
    (with_timeout : Bool) (timeout clock : ℕ) (es : List Event) (s : Session)
    → run (start with_timeout (init timeout clock)) es ≡ s
    → s.is_open ≡ true
    → ((e : ℕ) × (s.wait ≡ some e) × (e ≤ s.clock + s.timeout)) ⊎ (0 < s.spawned + s.expired)
unfolding IsArmed
run_held with_timeout timeout clock es s r o =
    let v = subst IsValid r (reached-IsValid with_timeout timeout clock es) in
    elim v.held [
      | inl c ↦ cc
      | inr (inr h) ↦ inr h
      | inr (inl (e, q)) ↦ elim v.ready.soon [ inl h ↦ cc | inr w ↦ inl w ]
    ]

watch-due : (s : Session) → s.is_open ≡ true → (watch s).is_open ≡ false → s.deadline ≤ s.clock
unfolding watch close
watch-due s o c = ground (arith, o, c)

resume_first-due :
    (s : Session) (n : ℕ)
    → s.with_timeout ≡ false
    → s.is_open ≡ true
    → (resume_first s n).is_open ≡ false
    → s.deadline ≤ s.clock
unfolding resume_first
resume_first-due s zero t o c = cc
resume_first-due s (suc n) t o c =
    by-if (λ (u : Session). u.is_open ≡ false → s.deadline ≤ s.clock) s.with_timeout _ _ (λ k. cc)
      (λ k h. watch-due (record s { spawned = n }) o h) c

resume_expired-due :
    (s : Session) (n : ℕ)
    → s.with_timeout ≡ false
    → s.is_open ≡ true
    → (resume_expired s n).is_open ≡ false
    → s.deadline ≤ s.clock
unfolding resume_expired
resume_expired-due s zero t o c = cc
resume_expired-due s (suc n) t o c =
    by-if (λ (u : Session). u.is_open ≡ false → s.deadline ≤ s.clock) s.with_timeout _ _ (λ k. cc)
      (λ k h. watch-due (record s { expired = n }) o h) c

resume_echo-open :
    (s : Session) (p : Pending) (c : Completion) → (resume_echo s p c).is_open ≡ s.is_open
unfolding resume_echo received_with_timeout sent_with_timeout received_with_watchdog
    sent_with_watchdog write_with_timeout receive_with_timeout write_with_watchdog
    receive_with_watchdog begin start_timeout cancel end resize_buffer write_buffer
resume_echo-open s nothing c = refl
resume_echo-open s receiving fails = ground arith
resume_echo-open s receiving (succeeds bytes) = ground arith
resume_echo-open s (sending n) fails = ground arith
resume_echo-open s (sending n) (succeeds bytes) = ground arith

expire-open : (s : Session) (w : Option ℕ) → (expire s w).is_open ≡ s.is_open
unfolding expire
expire-open s none = refl
expire-open s (some e) = ground arith

act-due :
    (s : Session) (e : Event)
    → s.with_timeout ≡ false
    → s.is_open ≡ true
    → (act s e).is_open ≡ false
    → s.deadline ≤ s.clock
unfolding act
act-due s (ticks n) t o c = cc
act-due s (completes d) t o c = cc (resume_echo-open s s.channel.pending d)
act-due s expires t o c = cc (expire-open s s.wait)
act-due s resumes_first t o c = resume_first-due s s.spawned t o c
act-due s resumes_expired t o c = resume_expired-due s s.expired t o c

release-open :
    (s : Session) → s.is_open ≡ true → (release s).is_open ≡ false → s.channel.pending ≡ nothing
unfolding release is_kept
release-open s o c =
    elim s.channel.pending
        as (λ p.
          ((if is_kept p s.wait (s.spawned + s.expired)
              then s
              else record s { is_open = false }).is_open
            ≡ false)
          → p ≡ nothing) [ nothing ↦ λ h. refl | receiving ↦ λ h. cc | sending n ↦ λ h. cc ]
      c

act-mode : (s : Session) (e : Event) → (act s e).with_timeout ≡ s.with_timeout
unfolding act resume_first resume_expired resume_echo expire wait watch close received_with_timeout
    sent_with_timeout received_with_watchdog sent_with_watchdog write_with_timeout
    receive_with_timeout write_with_watchdog receive_with_watchdog begin start_timeout cancel end
    resize_buffer write_buffer
act-mode s (ticks n) = refl
act-mode s (completes c) = ground arith
act-mode s expires = ground arith
act-mode s resumes_first = ground arith
act-mode s resumes_expired = ground arith

step-mode : (s : Session) (e : Event) → (step s e).with_timeout ≡ s.with_timeout
unfolding step release
step-mode s e =
    by-if (λ (u : Session). u.with_timeout ≡ s.with_timeout)
      (is_kept (act s e).channel.pending (act s e).wait ((act s e).spawned + (act s e).expired)) _ _
      (λ k. act-mode s e) (λ k. act-mode s e)

run-mode : (s : Session) (es : List Event) → (run s es).with_timeout ≡ s.with_timeout
unfolding run
run-mode s [] = refl
run-mode s (e ∷ es) = run-mode (step s e) es ∙ step-mode s e

start-mode : (timeout clock : ℕ) → (start false (init timeout clock)).with_timeout ≡ false
unfolding start start_with_watchdog receive_with_watchdog begin start_watchdog resize_buffer
    write_buffer
start-mode timeout clock = refl

-- In every run of a session with a watchdog, nothing closes its open socket unless the pending
-- operation was begun at least the timeout ago, or `echo` has ended after an error.
pub run_patient_coroutine :
    (timeout clock : ℕ) (es : List Event) (s : Session) (e : Event)
    → run (start false (init timeout clock)) es ≡ s
    → s.is_open ≡ true
    → (step s e).is_open ≡ false
    → (s.begun + s.timeout ≤ s.clock) ⊎ ((step s e).channel.pending ≡ nothing)
unfolding step
run_patient_coroutine timeout clock es s e r o c =
    let v = subst IsValid r (reached-IsValid false timeout clock es) in
    let m =
      ap (λ (u : Session). u.with_timeout) (sym r) ∙ (run-mode _ es ∙ start-mode timeout clock) in
    elim (Bool-cases (act s e).is_open) [
      | inl h ↦
          inr (
            ap (λ (k : Channel). k.pending) (release-channel (act s e))
            ∙ release-open (act s e) h c)
      | inr h ↦ inl (omega (arith, act-due s e m o h, watching s m v.ready))
    ]
