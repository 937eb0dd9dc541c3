-- ===== src/CoServer/Errors.antt =====
-- A session of asio/echo/co_server.cc after the error that ends `echo`.
use mathlib.Core.Path.{subst}
use cc_snippets.Prelude.{
  ℕ, zero, suc, ◌+◌, ◌*◌, ◌≤◌, ◌≡◌, refl, sym, ap, ◌∙◌, Bool, true, false, List, [], ◌∷◌, Option,
  none, some, arith, leb, ltb, if◌then◌else◌, by-if, Bool-cases, inl, inr, ◌⊎◌,
}
use cc_snippets.Channel.{Pending, nothing, receiving, sending, Completion, fails, Channel}
use cc_snippets.CoServer.{
  Session, wait, close, cancel, watch, end, received_with_timeout, sent_with_timeout,
  received_with_watchdog, sent_with_watchdog, resume_first, resume_expired, resume_echo, expire,
  is_kept, release, Event, ticks, completes, expires, resumes_first, resumes_expired, act, step,
  run,
}
use cc_snippets.CoServer.Echo.{act-channel, release-channel}

resume_echo-ended :
    (s : Session) (p : Pending) (c : Completion) → p ≡ nothing → resume_echo s p c ≡ s
unfolding resume_echo
resume_echo-ended s p c e = rw e refl

act-ended : (s : Session) (e : Event) → s.channel.pending ≡ nothing → (act s e).channel ≡ s.channel
unfolding act
act-ended s e h = elim (act-channel s e) [
  | inl q ↦ q
  | inr (c, q) ↦ rw q (ap (λ (u : Session). u.channel) (resume_echo-ended s s.channel.pending c h))
]

step-ended :
    (s : Session) (e : Event) → s.channel.pending ≡ nothing → (step s e).channel ≡ s.channel
unfolding step
step-ended s e h = release-channel (act s e) ∙ act-ended s e h

run-ended :
    (s : Session) (es : List Event) → s.channel.pending ≡ nothing → (run s es).channel ≡ s.channel
unfolding run
run-ended s [] h = refl
run-ended s (e ∷ es) h =
    run-ended (step s e) es (ap (λ (c : Channel). c.pending) (step-ended s e h) ∙ h)
    ∙ step-ended s e h

resume_echo-fails :
    (s : Session) (p : Pending)
    → s.channel.pending ≡ p
    → (resume_echo s p fails).channel ≡ record (s.channel) { pending = nothing }
unfolding resume_echo received_with_timeout sent_with_timeout received_with_watchdog
    sent_with_watchdog end cancel
resume_echo-fails s nothing e = subst (λ p. s.channel ≡ record (s.channel) { pending = p }) e refl
resume_echo-fails s receiving e = ground arith
resume_echo-fails s (sending n) e = ground arith

-- After an operation of `echo` has ended with an error, no operation is begun any more, and nothing
-- more is received or sent, whatever happens next.
run_ends :
    (s : Session) (es : List Event)
    → (run (step s (completes fails)) es).channel ≡ record (s.channel) { pending = nothing }
unfolding step act
run_ends s es =
    let s' = resume_echo s s.channel.pending fails in
    let f : s'.channel ≡ record (s.channel) { pending = nothing } =
      resume_echo-fails s s.channel.pending refl in
    run-ended (release s') es (ap (λ (c : Channel). c.pending) (release-channel s' ∙ f))
    ∙ (release-channel s' ∙ f)

-- whether an event has something to run, the timer to expire or a coroutine to resume
unfoldable pub has_effect : Session → Event → Bool
has_effect s (ticks n) = false
has_effect s (completes c) = elim s.channel.pending [ nothing ↦ false | _ ↦ true ]
has_effect s expires = elim s.wait [ none ↦ false | some e ↦ leb e s.clock ]
has_effect s resumes_first = ltb 0 s.spawned
has_effect s resumes_expired = ltb 0 s.expired

-- the number of events of a run that had
unfoldable pub effects : Session → List Event → ℕ
effects s [] = 0
effects s (e ∷ es) = (if has_effect s e then 1 else 0) + effects (step s e) es

-- what the coroutines of an ended session have left to do
work : Session → ℕ
work s = 3 * s.spawned + s.expired + elim s.wait [ none ↦ 0 | some e ↦ 2 ]

-- `echo` has ended, and `watch` would close the socket at once.
record IsEnded (s : Session) : Type 0 where
  idle : s.channel.pending ≡ nothing
  late : (s.with_timeout ≡ true) ⊎ (s.deadline ≤ s.clock)

release-work : (s : Session) → work (release s) ≡ work s
unfolding release work
release-work s =
    by-if (λ (u : Session). work u ≡ work s)
      (is_kept s.channel.pending s.wait (s.spawned + s.expired)) _ _ (λ k. refl) (λ k. refl)

watch-work : (s : Session) → s.deadline ≤ s.clock → work (watch s) ≡ work s
unfolding watch work close
watch-work s l = ground (arith, l)

work_le : (s : Session) (n : ℕ) → 0 + work (record s { clock = s.clock + n }) ≤ work s
unfolding work
work_le s n = omega arith

late-watch : (s : Session) → IsEnded s → s.with_timeout ≡ false → s.deadline ≤ s.clock
late-watch s v t = elim v.late [ inl h ↦ cc | inr l ↦ l ]

resume_first-work :
    (s : Session) (n : ℕ)
    → s.spawned ≡ n
    → IsEnded s
    → (if ltb 0 n then 1 else 0) + work (resume_first s n) ≤ work s
unfolding resume_first work wait
resume_first-work s zero e v = omega arith
resume_first-work s (suc n) e v =
    by-if (λ u. (if ltb 0 (suc n) then 1 else 0) + work u ≤ work s) s.with_timeout _ _
      (λ t. ground (arith, e))
      (λ t. ground (arith, e, watch-work (record s { spawned = n }) (late-watch s v t)))

resume_expired-work :
    (s : Session) (n : ℕ)
    → s.expired ≡ n
    → IsEnded s
    → (if ltb 0 n then 1 else 0) + work (resume_expired s n) ≤ work s
unfolding resume_expired work close
resume_expired-work s zero e v = omega arith
resume_expired-work s (suc n) e v =
    by-if (λ u. (if ltb 0 (suc n) then 1 else 0) + work u ≤ work s) s.with_timeout _ _
      (λ t. ground (arith, e))
      (λ t. ground (arith, e, watch-work (record s { expired = n }) (late-watch s v t)))

expire-work :
    (s : Session) (w : Option ℕ)
    → s.wait ≡ w
    → (if (elim w [ none ↦ false | some e ↦ leb e s.clock ]) then 1 else 0) + work (expire s w)
      ≤ work s
unfolding expire work
expire-work s none e = omega arith
expire-work s (some d) e = elim (Bool-cases (leb d s.clock)) [
  | inl t ↦ rw (t, e) (omega arith)
  | inr f ↦ rw f (omega arith)
]

act-work :
    (s : Session) (e : Event)
    → IsEnded s
    → (if has_effect s e then 1 else 0) + work (act s e) ≤ work s
unfolding act has_effect
act-work s (ticks n) v = work_le s n
act-work s (completes c) v = rw v.idle (omega arith)
act-work s expires v = expire-work s s.wait refl
act-work s resumes_first v = resume_first-work s s.spawned refl v
act-work s resumes_expired v = resume_expired-work s s.expired refl v

IsLate : Session → Type 0
IsLate s = (s.with_timeout ≡ true) ⊎ (s.deadline ≤ s.clock)

watch-IsLate : (s : Session) → IsLate s → IsLate (watch s)
unfolding watch close IsLate
watch-IsLate s v = by-if IsLate (leb s.deadline s.clock) _ _ (λ t. v) (λ t. v)

expire-IsLate : (s : Session) (w : Option ℕ) → IsLate s → IsLate (expire s w)
unfolding expire IsLate
expire-IsLate s none v = v
expire-IsLate s (some d) v = by-if IsLate (leb d s.clock) _ _ (λ t. v) (λ t. v)

resume_first-IsLate : (s : Session) (n : ℕ) → IsLate s → IsLate (resume_first s n)
unfolding resume_first wait IsLate
resume_first-IsLate s zero v = v
resume_first-IsLate s (suc n) v =
    by-if IsLate s.with_timeout _ _ (λ t. v) (λ t. watch-IsLate (record s { spawned = n }) v)

resume_expired-IsLate : (s : Session) (n : ℕ) → IsLate s → IsLate (resume_expired s n)
unfolding resume_expired close IsLate
resume_expired-IsLate s zero v = v
resume_expired-IsLate s (suc n) v =
    by-if IsLate s.with_timeout _ _ (λ t. v) (λ t. watch-IsLate (record s { expired = n }) v)

act-IsLate : (s : Session) (e : Event) → IsEnded s → IsLate (act s e)
unfolding act IsLate
act-IsLate s (ticks n) v = elim v.late [ inl t ↦ inl t | inr l ↦ inr (omega arith) ]
act-IsLate s (completes c) v =
    subst IsLate (sym (resume_echo-ended s s.channel.pending c v.idle)) v.late
act-IsLate s expires v = expire-IsLate s s.wait v.late
act-IsLate s resumes_first v = resume_first-IsLate s s.spawned v.late
act-IsLate s resumes_expired v = resume_expired-IsLate s s.expired v.late

release-IsLate : (s : Session) → IsLate s → IsLate (release s)
unfolding release IsLate
release-IsLate s v =
    by-if IsLate (is_kept s.channel.pending s.wait (s.spawned + s.expired)) _ _ (λ k. v) (λ k. v)

step-IsEnded : (s : Session) (e : Event) → IsEnded s → IsEnded (step s e)
unfolding step IsLate
step-IsEnded s e v = record {
  idle = ap (λ (c : Channel). c.pending) (step-ended s e v.idle) ∙ v.idle;
  late = release-IsLate (act s e) (act-IsLate s e v);
}

step-work :
    (s : Session) (e : Event)
    → IsEnded s
    → (if has_effect s e then 1 else 0) + work (step s e) ≤ work s
unfolding step
step-work s e v = omega (arith, act-work s e v, release-work (act s e))

effects-work : (s : Session) (es : List Event) → IsEnded s → effects s es + work (run s es) ≤ work s
unfolding effects run
effects-work s [] v = omega arith
effects-work s (e ∷ es) v =
    omega (arith, step-work s e v, effects-work (step s e) es (step-IsEnded s e v))

-- Once `echo` has ended, and a watchdog's deadline has come if there is one, the coroutines of the
-- session end too: however long the session goes on, at most 3 times the spawned coroutines, the
-- expired ones and 2 more of its events have anything to run.
pub effects_le :
    (s : Session) (es : List Event)
    → s.channel.pending ≡ nothing
    → (s.with_timeout ≡ true) ⊎ (s.deadline ≤ s.clock)
    → effects s es ≤ 3 * s.spawned + s.expired + 2
unfolding work
effects_le s es h l = ground (arith, effects-work s es (record { idle = h; late = l }))
