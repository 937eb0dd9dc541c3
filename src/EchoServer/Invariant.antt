-- ===== src/EchoServer/Invariant.antt =====
-- What every run of a session of asio/echo/server.cc keeps.
use cc_snippets.Prelude.{
  ℕ, zero, suc, ◌+◌, ◌≤◌, ◌<◌, ◌≡◌, ◌≢◌, refl, Bool, true, false, List, [], ◌∷◌, Option, none, some,
  arith, leb, Bool-cases, by-if, inl, inr, ◌⊎◌,
}
use cc_snippets.Channel.{
  Pending, nothing, receiving, sending, Completion, fails, succeeds, Channel, fill, drain,
}
use cc_snippets.EchoServer.{
  Session, Event, ticks, completes, expires, handles_wait, stop, receive_with_watchdog,
  send_with_watchdog, start_watchdog, start_timeout, receive_with_timeout, send_with_timeout, start,
  init, cancel, received_with_watchdog, sent_with_watchdog, received_with_timeout,
  sent_with_timeout, handle_wait, complete, expire, run_wait, step, run,
}

-- An open session has an operation pending, and either a wait that expires within the timeout, or
-- the handler of an expired wait in the queue.
pub record IsWatched (s : Session) : Type 0 where
  pub busy : (s.is_open ≡ false) ⊎ (s.channel.pending ≢ nothing)
  pub watched :
      (s.is_open ≡ false)
      ⊎ ((e : ℕ) × (s.wait ≡ some e) × (e ≤ s.clock + s.timeout))
      ⊎ (0 < s.expired)
  pub due : (s.with_timeout ≡ true) ⊎ (s.deadline ≡ s.begun + s.timeout)
  pub past : s.begun ≤ s.clock

stop-IsWatched :
    (s : Session)
    → (s.with_timeout ≡ true) ⊎ (s.deadline ≡ s.begun + s.timeout)
    → s.begun ≤ s.clock
    → IsWatched (stop s)
unfolding stop
stop-IsWatched s d p = record { busy = inl refl; watched = inl refl; due = d; past = p }

timed-IsWatched :
    (s : Session) (p : Pending) (c : Channel)
    → p ≢ nothing
    → s.with_timeout ≡ true
    → IsWatched (record s {
      channel = record c { pending = p };
      wait = some (s.clock + s.timeout);
      begun = s.clock;
    })
timed-IsWatched s p c n t = record {
  busy = inr n;
  watched = inr (inl (s.clock + s.timeout, refl, omega arith));
  due = inl t;
  past = omega arith;
}

untimed-IsWatched :
    (s : Session) (p : Pending) (c : Channel)
    → p ≢ nothing
    → (s.is_open ≡ false)
      ⊎ ((e : ℕ) × (s.wait ≡ some e) × (e ≤ s.clock + s.timeout))
      ⊎ (0 < s.expired)
    → IsWatched (record s {
      channel = record c { pending = p };
      deadline = s.clock + s.timeout;
      begun = s.clock;
    })
untimed-IsWatched s p c n w = record {
  busy = inr n;
  watched = w;
  due = inr refl;
  past = omega arith;
}

complete-IsWatched :
    (s : Session) (p : Pending) (c : Completion) → IsWatched s → IsWatched (complete s p c)
unfolding complete received_with_watchdog sent_with_watchdog received_with_timeout sent_with_timeout
    fill cancel send_with_timeout send_with_watchdog receive_with_timeout receive_with_watchdog
    start_timeout
complete-IsWatched s nothing c v = v
complete-IsWatched s receiving fails v =
    by-if IsWatched s.with_timeout _ _
      (λ t.
        stop-IsWatched
          (record s { channel = record (s.channel) { pending = nothing }; wait = none }) v.due
          v.past)
      (λ t.
        stop-IsWatched (record s { channel = record (s.channel) { pending = nothing } }) v.due
          v.past)
complete-IsWatched s receiving (succeeds bytes) v =
    by-if IsWatched s.with_timeout _ _
      (λ t. timed-IsWatched (record s { wait = none }) _ (fill bytes s.channel) (λ e. cc) t)
      (λ t. untimed-IsWatched s _ (fill bytes s.channel) (λ e. cc) v.watched)
complete-IsWatched s (sending n) fails v =
    by-if IsWatched s.with_timeout _ _
      (λ t.
        stop-IsWatched
          (record s { channel = record (s.channel) { pending = nothing }; wait = none }) v.due
          v.past)
      (λ t.
        stop-IsWatched (record s { channel = record (s.channel) { pending = nothing } }) v.due
          v.past)
complete-IsWatched s (sending n) (succeeds bytes) v =
    by-if IsWatched s.with_timeout _ _
      (λ t. timed-IsWatched (record s { wait = none }) _ (drain n s.channel) (λ e. cc) t)
      (λ t. untimed-IsWatched s _ (drain n s.channel) (λ e. cc) v.watched)

expire-IsWatched : (s : Session) (w : Option ℕ) → IsWatched s → IsWatched (expire s w)
unfolding expire
expire-IsWatched s none v = v
expire-IsWatched s (some e) v = elim (Bool-cases (leb e s.clock)) [
  | inl t ↦
      rw t (record { busy = v.busy; watched = inr (inr (omega arith)); due = v.due; past = v.past })
  | inr t ↦ rw t v
]

start_watchdog-IsWatched :
    (s : Session)
    → (s.is_open ≡ false) ⊎ (s.channel.pending ≢ nothing)
    → s.deadline ≡ s.begun + s.timeout
    → s.begun ≤ s.clock
    → IsWatched (start_watchdog s)
unfolding start_watchdog stop
start_watchdog-IsWatched s b d p = elim (Bool-cases (leb s.deadline s.clock)) [
  | inl t ↦ rw t (record { busy = inl refl; watched = inl refl; due = inr d; past = p })
  | inr t ↦ rw t (record {
    busy = b;
    watched = inr (inl (s.deadline, refl, omega arith));
    due = inr d;
    past = p;
  })
]

run_wait-IsWatched : (s : Session) (n : ℕ) → IsWatched s → IsWatched (run_wait s n)
unfolding run_wait handle_wait
run_wait-IsWatched s zero v = v
run_wait-IsWatched s (suc n) v =
    by-if IsWatched s.with_timeout _ _ (λ t. stop-IsWatched (record s { expired = n }) v.due v.past)
      (λ t.
        start_watchdog-IsWatched (record s { expired = n }) v.busy (ground (arith, v.due)) v.past)

step-IsWatched : (s : Session) (e : Event) → IsWatched s → IsWatched (step s e)
unfolding step
step-IsWatched s (ticks n) v = record {
  busy = v.busy;
  watched = elim v.watched [
    | inl c ↦ inl c
    | inr (inl (e, q, l)) ↦ inr (inl (e, q, omega arith))
    | inr (inr f) ↦ inr (inr f)
  ];
  due = v.due;
  past = omega (arith, v.past);
}
step-IsWatched s (completes c) v = complete-IsWatched s s.channel.pending c v
step-IsWatched s expires v = expire-IsWatched s s.wait v
step-IsWatched s handles_wait v = run_wait-IsWatched s s.expired v

run-IsWatched : (s : Session) (es : List Event) → IsWatched s → IsWatched (run s es)
unfolding run
run-IsWatched s [] v = v
run-IsWatched s (e ∷ es) v = run-IsWatched (step s e) es (step-IsWatched s e v)

start-IsWatched :
    (with_timeout : Bool) (timeout clock : ℕ) → IsWatched (start with_timeout (init timeout clock))
unfolding start init receive_with_timeout start_timeout receive_with_watchdog
start-IsWatched true timeout clock = record {
  busy = inr (λ e. ground arith);
  watched = inr (inl (clock + timeout, refl, omega arith));
  due = inl refl;
  past = omega arith;
}
start-IsWatched false timeout clock =
    start_watchdog-IsWatched
      (record (init timeout clock) {
        channel = record ((init timeout clock).channel) { pending = receiving };
        deadline = clock + timeout;
        begun = clock;
      })
      (inr (λ e. ground arith)) refl (omega arith)

pub reached-IsWatched :
    (with_timeout : Bool) (timeout clock : ℕ) (es : List Event)
    → IsWatched (run (start with_timeout (init timeout clock)) es)
reached-IsWatched with_timeout timeout clock es =
    run-IsWatched _ es (start-IsWatched with_timeout timeout clock)
