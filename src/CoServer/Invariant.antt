-- ===== src/CoServer/Invariant.antt =====
-- What every run of a session of asio/echo/co_server.cc keeps.
use cc_snippets.Prelude.{
  length, take, ℕ, zero, suc, ◌+◌, ◌≤◌, ◌<◌, ◌≡◌, ◌≢◌, refl, Bool, true, false, List, [], ◌∷◌,
  Option, none, some, arith, leb, by-if, inl, inr, ◌⊎◌,
}
use cc_snippets.Channel.{
  Pending, nothing, receiving, sending, Completion, fails, succeeds, Channel, fill, drain, resize,
  buffer_size,
}
use cc_snippets.CoServer.{
  Session, start_timeout, wait, close, cancel, start_watchdog, watch, begin, receive_with_timeout,
  write_with_timeout, resize_buffer, write_buffer, receive_with_watchdog, write_with_watchdog,
  start_with_timeout, start_with_watchdog, start, init, end, received_with_timeout,
  sent_with_timeout, received_with_watchdog, sent_with_watchdog, resume_first, resume_expired,
  resume_echo, expire, is_kept, release, Event, ticks, completes, expires, resumes_first,
  resumes_expired, act, step, run,
}

-- A coroutine waits for the timer, or is to be run.
unfoldable pub IsArmed : Session → Type 0
IsArmed s = ((e : ℕ) × (s.wait ≡ some e)) ⊎ (0 < s.spawned + s.expired)

-- Before the session is released: somebody will close an open socket while `echo` runs.
pub record IsReady (s : Session) : Type 0 where
  pub watched : (s.is_open ≡ false) ⊎ (s.channel.pending ≡ nothing) ⊎ IsArmed s
  pub soon : (s.wait ≡ none) ⊎ ((e : ℕ) × (s.wait ≡ some e) × (e ≤ s.clock + s.timeout))
  pub due : (s.with_timeout ≡ true) ⊎ (s.deadline ≡ s.begun + s.timeout)
  pub past : s.begun ≤ s.clock

-- After it: somebody will close an open socket.
pub record IsValid (s : Session) : Type 0 where
  pub held : (s.is_open ≡ false) ⊎ IsArmed s
  pub ready : IsReady s

kept_by :
    (p : Pending) (w : Option ℕ) (n : ℕ)
    → is_kept p w n ≡ true
    → (p ≢ nothing) ⊎ ((e : ℕ) × (w ≡ some e)) ⊎ (0 < n)
unfolding is_kept
kept_by nothing none n k = inr (inr (ground arith))
kept_by nothing (some e) n k = inr (inl (e, refl))
kept_by receiving w n k = inl (λ h. cc)
kept_by (sending m) w n k = inl (λ h. cc)

release-IsValid : (s : Session) → IsReady s → IsValid (release s)
unfolding release IsArmed
release-IsValid s v =
    by-if IsValid (is_kept s.channel.pending s.wait (s.spawned + s.expired)) _ _
      (λ k. record {
        held = elim (kept_by s.channel.pending s.wait (s.spawned + s.expired) k) [
          | inl n ↦ elim v.watched [
            | inl o ↦ inl o
            | inr (inl e) ↦ elim (n e) [ ]
            | inr (inr a) ↦ inr a
          ]
          | inr a ↦ inr a
        ];
        ready = v;
      })
      (λ k. record {
        held = inl refl;
        ready = record { watched = inl refl; soon = v.soon; due = v.due; past = v.past };
      })

end-IsReady : (s : Session) → IsReady s → IsReady (end s)
unfolding end cancel
end-IsReady s v = record { watched = inr (inl refl); soon = inl refl; due = v.due; past = v.past }

-- An operation of `echo` begins, in either mode.
timed-IsReady :
    (s : Session) (p : Pending) (c : Channel)
    → s.with_timeout ≡ true
    → IsReady (begin p (start_timeout (cancel (record s { channel = c }))))
unfolding begin start_timeout cancel IsArmed
timed-IsReady s p c t = record {
  watched = inr (inr (inr (omega arith)));
  soon = inl refl;
  due = inl t;
  past = omega arith;
}

untimed-IsReady :
    (s : Session) (p : Pending) (c : Channel)
    → s.channel.pending ≢ nothing
    → IsReady s
    → IsReady (begin p (record s { channel = c; deadline = s.clock + s.timeout }))
unfolding begin IsArmed
untimed-IsReady s p c n v = record {
  watched = elim v.watched [
    | inl o ↦ inl o
    | inr (inl e) ↦ elim (n e) [ ]
    | inr (inr a) ↦ inr (inr a)
  ];
  soon = v.soon;
  due = inr refl;
  past = omega arith;
}

resume_echo-IsReady :
    (s : Session) (p : Pending) (c : Completion)
    → s.channel.pending ≡ p
    → IsReady s
    → IsReady (resume_echo s p c)
unfolding resume_echo received_with_timeout sent_with_timeout received_with_watchdog
    sent_with_watchdog write_with_timeout receive_with_timeout write_with_watchdog
    receive_with_watchdog resize_buffer write_buffer begin start_timeout cancel drain
resume_echo-IsReady s nothing c e v = v
resume_echo-IsReady s receiving fails e v =
    by-if IsReady s.with_timeout _ _ (λ t. end-IsReady s v) (λ t. end-IsReady s v)
resume_echo-IsReady s receiving (succeeds bytes) e v =
    let cut = resize (length (take buffer_size bytes)) (fill bytes s.channel).buffer in
    let c = record (fill bytes s.channel) { buffer = cut } in
    by-if IsReady s.with_timeout _ _ (λ t. timed-IsReady s (sending (length cut)) c t)
      (λ t. untimed-IsReady s (sending (length cut)) c (λ h. cc) v)
resume_echo-IsReady s (sending n) fails e v =
    by-if IsReady s.with_timeout _ _ (λ t. end-IsReady s v) (λ t. end-IsReady s v)
resume_echo-IsReady s (sending n) (succeeds bytes) e v =
    let c = record (drain n s.channel) { buffer = resize buffer_size s.channel.buffer } in
    by-if IsReady s.with_timeout _ _ (λ t. timed-IsReady s receiving c t)
      (λ t. untimed-IsReady s receiving c (λ h. cc) v)

watch-IsReady :
    (s : Session)
    → (s.wait ≡ none) ⊎ ((e : ℕ) × (s.wait ≡ some e) × (e ≤ s.clock + s.timeout))
    → s.deadline ≡ s.begun + s.timeout
    → s.begun ≤ s.clock
    → IsReady (watch s)
unfolding watch close IsArmed
watch-IsReady s w d p =
    by-if IsReady (leb s.deadline s.clock) _ _
      (λ t. record { watched = inl refl; soon = w; due = inr d; past = p })
      (λ t. record {
        watched = inr (inr (inl (s.deadline, refl)));
        soon = inr (s.deadline, refl, omega arith);
        due = inr d;
        past = p;
      })

pub watching : (s : Session) → s.with_timeout ≡ false → IsReady s → s.deadline ≡ s.begun + s.timeout
watching s t v = elim v.due [ inl h ↦ cc | inr d ↦ d ]

resume_first-IsReady : (s : Session) (n : ℕ) → IsReady s → IsReady (resume_first s n)
unfolding resume_first wait IsArmed
resume_first-IsReady s zero v = v
resume_first-IsReady s (suc n) v =
    by-if IsReady s.with_timeout _ _
      (λ t. record {
        watched = inr (inr (inl (s.clock + s.timeout, refl)));
        soon = inr (s.clock + s.timeout, refl, omega arith);
        due = inl t;
        past = v.past;
      })
      (λ t. watch-IsReady (record s { spawned = n }) v.soon (watching s t v) v.past)

resume_expired-IsReady : (s : Session) (n : ℕ) → IsReady s → IsReady (resume_expired s n)
unfolding resume_expired close
resume_expired-IsReady s zero v = v
resume_expired-IsReady s (suc n) v =
    by-if IsReady s.with_timeout _ _
      (λ t. record { watched = inl refl; soon = v.soon; due = inl t; past = v.past })
      (λ t. watch-IsReady (record s { expired = n }) v.soon (watching s t v) v.past)

expire-IsReady : (s : Session) (w : Option ℕ) → IsReady s → IsReady (expire s w)
unfolding expire IsArmed
expire-IsReady s none v = v
expire-IsReady s (some e) v =
    by-if IsReady (leb e s.clock) _ _
      (λ t. record {
        watched = inr (inr (inr (omega arith)));
        soon = inl refl;
        due = v.due;
        past = v.past;
      })
      (λ t. v)

act-IsReady : (s : Session) (e : Event) → IsReady s → IsReady (act s e)
unfolding act IsArmed
act-IsReady s (ticks n) v = record {
  watched = v.watched;
  soon = elim v.soon [ inl h ↦ inl h | inr (e, q, l) ↦ inr (e, q, omega arith) ];
  due = v.due;
  past = omega (arith, v.past);
}
act-IsReady s (completes c) v = resume_echo-IsReady s s.channel.pending c refl v
act-IsReady s expires v = expire-IsReady s s.wait v
act-IsReady s resumes_first v = resume_first-IsReady s s.spawned v
act-IsReady s resumes_expired v = resume_expired-IsReady s s.expired v

run-IsValid : (s : Session) (es : List Event) → IsValid s → IsValid (run s es)
unfolding run step
run-IsValid s [] v = v
run-IsValid s (e ∷ es) v =
    run-IsValid (step s e) es (release-IsValid (act s e) (act-IsReady s e v.ready))

start-IsValid :
    (with_timeout : Bool) (timeout clock : ℕ) → IsValid (start with_timeout (init timeout clock))
unfolding start init start_with_timeout start_with_watchdog receive_with_timeout
    receive_with_watchdog begin start_timeout start_watchdog IsArmed resize_buffer write_buffer
start-IsValid true timeout clock = record {
  held = inr (inr (omega arith));
  ready = record {
    watched = inr (inr (inr (omega arith)));
    soon = inl refl;
    due = inl refl;
    past = omega arith;
  };
}
start-IsValid false timeout clock = record {
  held = inr (inr (omega arith));
  ready = record {
    watched = inr (inr (inr (omega arith)));
    soon = inl refl;
    due = inr refl;
    past = omega arith;
  };
}

pub reached-IsValid :
    (with_timeout : Bool) (timeout clock : ℕ) (es : List Event)
    → IsValid (run (start with_timeout (init timeout clock)) es)
reached-IsValid with_timeout timeout clock es =
    run-IsValid _ es (start-IsValid with_timeout timeout clock)
