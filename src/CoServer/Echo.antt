-- ===== src/CoServer/Echo.antt =====
-- The bytes that a session of asio/echo/co_server.cc sends back.
use mathlib.Core.Path.{subst}
use cc_snippets.Prelude.{
  ℕ, zero, suc, ◌+◌, ◌≡◌, refl, sym, Bool, true, false, List, [], ◌∷◌, Option, none, some, leb,
  by-if, inl, inr, ◌⊎◌,
}
use cc_snippets.Channel.{
  buffer_size, drain, Pending, nothing, receiving, sending, Completion, fails, succeeds,
}
use cc_snippets.Channel.Relayed.{
  IsRelayed, idle-IsRelayed, resize-IsRelayed, resize-drain-IsRelayed, resize-first-IsRelayed,
  IsRelaying, IsRelayed-IsRelaying,
}
use cc_snippets.CoServer.{
  Session, start_timeout, wait, close, cancel, start_watchdog, watch, begin, receive_with_timeout,
  write_with_timeout, resize_buffer, write_buffer, receive_with_watchdog, write_with_watchdog,
  start_with_timeout, start_with_watchdog, start, init, end, received_with_timeout,
  sent_with_timeout, received_with_watchdog, sent_with_watchdog, resume_first, resume_expired,
  resume_echo, expire, is_kept, release, Event, ticks, completes, expires, resumes_first,
  resumes_expired, act, step, run,
}

resume_echo-IsRelayed :
    (s : Session) (p : Pending) (c : Completion)
    → s.channel.pending ≡ p
    → IsRelayed s.channel
    → IsRelayed (resume_echo s p c).channel
unfolding resume_echo received_with_timeout sent_with_timeout received_with_watchdog
    sent_with_watchdog write_with_timeout receive_with_timeout write_with_watchdog
    receive_with_watchdog begin start_timeout cancel end drain resize_buffer write_buffer
resume_echo-IsRelayed s nothing c e v = v
resume_echo-IsRelayed s receiving fails e v =
    by-if (λ (t : Session). IsRelayed t.channel) s.with_timeout _ _
      (λ t. idle-IsRelayed s.channel v) (λ t. idle-IsRelayed s.channel v)
resume_echo-IsRelayed s receiving (succeeds bytes) e v =
    by-if (λ (t : Session). IsRelayed t.channel) s.with_timeout _ _
      (λ t. resize-IsRelayed s.channel bytes e v) (λ t. resize-IsRelayed s.channel bytes e v)
resume_echo-IsRelayed s (sending n) fails e v =
    by-if (λ (t : Session). IsRelayed t.channel) s.with_timeout _ _
      (λ t. idle-IsRelayed s.channel v) (λ t. idle-IsRelayed s.channel v)
resume_echo-IsRelayed s (sending n) (succeeds bytes) e v =
    by-if (λ (t : Session). IsRelayed t.channel) s.with_timeout _ _
      (λ t. resize-drain-IsRelayed s.channel n buffer_size e v)
      (λ t. resize-drain-IsRelayed s.channel n buffer_size e v)

pub release-channel : (s : Session) → (release s).channel ≡ s.channel
unfolding release
release-channel s =
    by-if (λ (t : Session). t.channel ≡ s.channel)
      (is_kept s.channel.pending s.wait (s.spawned + s.expired)) _ _ (λ k. refl) (λ k. refl)

watch-channel : (s : Session) → (watch s).channel ≡ s.channel
unfolding watch close
watch-channel s =
    by-if (λ (t : Session). t.channel ≡ s.channel) (leb s.deadline s.clock) _ _ (λ k. refl)
      (λ k. refl)

-- Only `echo` changes the channel.
resume_first-channel : (s : Session) (n : ℕ) → (resume_first s n).channel ≡ s.channel
unfolding resume_first wait
resume_first-channel s zero = refl
resume_first-channel s (suc n) =
    by-if (λ (t : Session). t.channel ≡ s.channel) s.with_timeout _ _ (λ k. refl)
      (λ k. watch-channel (record s { spawned = n }))

resume_expired-channel : (s : Session) (n : ℕ) → (resume_expired s n).channel ≡ s.channel
unfolding resume_expired close
resume_expired-channel s zero = refl
resume_expired-channel s (suc n) =
    by-if (λ (t : Session). t.channel ≡ s.channel) s.with_timeout _ _ (λ k. refl)
      (λ k. watch-channel (record s { expired = n }))

expire-channel : (s : Session) (w : Option ℕ) → (expire s w).channel ≡ s.channel
unfolding expire
expire-channel s none = refl
expire-channel s (some e) =
    by-if (λ (t : Session). t.channel ≡ s.channel) (leb e s.clock) _ _ (λ k. refl) (λ k. refl)

pub act-channel :
    (s : Session) (e : Event)
    → ((act s e).channel ≡ s.channel) ⊎ ((c : Completion) × (e ≡ completes c))
unfolding act
act-channel s (ticks n) = inl refl
act-channel s (completes c) = inr (c, refl)
act-channel s expires = inl (expire-channel s s.wait)
act-channel s resumes_first = inl (resume_first-channel s s.spawned)
act-channel s resumes_expired = inl (resume_expired-channel s s.expired)

act-IsRelayed : (s : Session) (e : Event) → IsRelayed s.channel → IsRelayed (act s e).channel
unfolding act
act-IsRelayed s (completes c) v = resume_echo-IsRelayed s s.channel.pending c refl v
act-IsRelayed s (ticks n) v = v
act-IsRelayed s expires v = subst IsRelayed (sym (expire-channel s s.wait)) v
act-IsRelayed s resumes_first v = subst IsRelayed (sym (resume_first-channel s s.spawned)) v
act-IsRelayed s resumes_expired v = subst IsRelayed (sym (resume_expired-channel s s.expired)) v

run-IsRelayed : (s : Session) (es : List Event) → IsRelayed s.channel → IsRelayed (run s es).channel
unfolding run step
run-IsRelayed s [] v = v
run-IsRelayed s (e ∷ es) v =
    run-IsRelayed (step s e) es
      (subst IsRelayed (sym (release-channel (act s e))) (act-IsRelayed s e v))

start-IsRelayed :
    (with_timeout : Bool) (timeout clock : ℕ)
    → IsRelayed (start with_timeout (init timeout clock)).channel
unfolding start init start_with_timeout start_with_watchdog receive_with_timeout
    receive_with_watchdog begin start_timeout start_watchdog resize_buffer write_buffer
start-IsRelayed true timeout clock =
    resize-first-IsRelayed (init timeout clock).channel buffer_size refl
start-IsRelayed false timeout clock =
    resize-first-IsRelayed (init timeout clock).channel buffer_size refl

-- In every run of a session, in either mode, the bytes that it has sent are the first of those that
-- it has received, in their order, and all but at most `buffer_size` of them; and all of them while
-- a receive is pending.
pub run_echoes_coroutine :
    (with_timeout : Bool) (timeout clock : ℕ) (es : List Event)
    → IsRelaying (run (start with_timeout (init timeout clock)) es).channel
run_echoes_coroutine with_timeout timeout clock es =
    IsRelayed-IsRelaying _ (run-IsRelayed _ es (start-IsRelayed with_timeout timeout clock))
