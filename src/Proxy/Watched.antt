-- ===== src/Proxy/Watched.antt =====
-- One direction of an open session of asio/proxy/server.cc, and its watchdog.
use mathlib.Core.Path.{subst}
use cc_snippets.Prelude.{
  ℕ, zero, suc, ◌+◌, ◌≤◌, ◌<◌, ◌≡◌, ◌≢◌, refl, sym, Bool, true, false, none, some, arith, leb,
  Bool-cases, Option-cases, inl, inr, ◌⊎◌,
}
use cc_snippets.Channel.{Pending, nothing, Channel}
use cc_snippets.Proxy.Watching
use cc_snippets.Proxy.Watching.{Watchdog}
use cc_snippets.Proxy.{Relay, begin}

-- Of a direction of an open session: the timer is set to a time no later than the deadline, or the
-- handler of a wait that has expired is in the queue; and the deadline is the timeout after the last
-- operation was begun.
pub record IsWatched (clock timeout : ℕ) (r : Relay) : Type 0 where
  pub armed :
      ((e : ℕ) × (r.watchdog.wait ≡ some e) × (e ≤ r.watchdog.deadline)) ⊎ (0 < r.watchdog.expired)
  pub due : r.watchdog.deadline ≡ r.begun + timeout
  pub past : r.begun ≤ clock

-- The same, with an operation pending.
pub record IsLive (clock timeout : ℕ) (r : Relay) : Type 0 where
  pub busy : r.channel.pending ≢ nothing
  pub watched : IsWatched clock timeout r

pub expire-cases :
    (now : ℕ) (w : Watchdog)
    → (Watching.expire now w ≡ w)
      ⊎ (Watching.expire now w ≡ record w { wait = none; expired = w.expired + 1 })
unfolding Watching.expire
expire-cases now w = elim (Option-cases w.wait) [
  | inl e ↦ inl (ground arith)
  | inr (n, e) ↦ elim (Bool-cases (leb n now)) [
    | inl t ↦ inr (ground arith)
    | inr f ↦ inl (ground arith)
  ]
]

pub run_wait-cases :
    (now : ℕ) (w : Watchdog)
    → ((w.expired ≡ 0) × (Watching.run_wait now w ≡ (w, false)))
      ⊎ ((n : ℕ) × (Watching.run_wait now w ≡ Watching.start now (record w { expired = n })))
unfolding Watching.run_wait
run_wait-cases now w = go w.expired refl
  where
    go :
        (n : ℕ)
        → w.expired ≡ n
        → ((w.expired ≡ 0) × (Watching.run_wait now w ≡ (w, false)))
          ⊎ ((n : ℕ) × (Watching.run_wait now w ≡ Watching.start now (record w { expired = n })))
    go zero e = inl (e, rw e refl)
    go (suc n) e = inr (n, rw e refl)

module _ (clock timeout : ℕ) where
  -- A change of the channel alone.
  pub channel-IsWatched :
      (r : Relay) (c : Channel)
      → IsWatched clock timeout r
      → IsWatched clock timeout (record r { channel = c })
  channel-IsWatched r c v = record { armed = v.armed; due = v.due; past = v.past }

  pub begin-IsLive :
      (r : Relay) (p : Pending)
      → p ≢ nothing
      → IsWatched clock timeout r
      → IsLive clock timeout (begin clock timeout p r)
  unfolding begin Watching.delay
  begin-IsLive r p n v = record {
    busy = n;
    watched = record {
      armed = elim v.armed [
        | inl (e, q, l) ↦ inl (e, q, omega (arith, v.due, v.past))
        | inr f ↦ inr f
      ];
      due = refl;
      past = omega arith;
    };
  }

  pub tick-IsLive : (r : Relay) (n : ℕ) → IsLive clock timeout r → IsLive (clock + n) timeout r
  tick-IsLive r n v = record {
    busy = v.busy;
    watched = record {
      armed = v.watched.armed;
      due = v.watched.due;
      past = omega (arith, v.watched.past);
    };
  }

  pub expire-IsLive :
      (r : Relay)
      → IsLive clock timeout r
      → IsLive clock timeout (record r { watchdog = Watching.expire clock r.watchdog })
  expire-IsLive r v = elim (expire-cases clock r.watchdog) [
    | inl e ↦ subst (λ w. IsLive clock timeout (record r { watchdog = w })) (sym e) v
    | inr e ↦
        subst (λ w. IsLive clock timeout (record r { watchdog = w })) (sym e)
          (record {
            busy = v.busy;
            watched = record {
              armed = inr (omega arith);
              due = v.watched.due;
              past = v.watched.past;
            };
          })
  ]

  pub start-IsLive :
      (r : Relay)
      → r.channel.pending ≢ nothing
      → r.watchdog.deadline ≡ r.begun + timeout
      → r.begun ≤ clock
      → ((Watching.start clock r.watchdog).1 ≡ true)
        ⊎ IsLive clock timeout (record r { watchdog = (Watching.start clock r.watchdog).0 })
  unfolding Watching.start
  start-IsLive r b d p = elim (Bool-cases (leb r.watchdog.deadline clock)) [
    | inl t ↦ inl (rw t)
    | inr f ↦ inr (
        rw f (record {
          busy = b;
          watched = record {
            armed = inl (r.watchdog.deadline, refl, omega arith);
            due = d;
            past = p;
          };
        }))
  ]

  pub run_wait-IsLive :
      (r : Relay)
      → IsLive clock timeout r
      → ((Watching.run_wait clock r.watchdog).1 ≡ true)
        ⊎ IsLive clock timeout (record r { watchdog = (Watching.run_wait clock r.watchdog).0 })
  run_wait-IsLive r v =
      let P : Watchdog × Bool → Type 0 =
        λ x. (x.1 ≡ true) ⊎ IsLive clock timeout (record r { watchdog = x.0 }) in
      elim (run_wait-cases clock r.watchdog) [
        | inl (z, e) ↦ subst P (sym e) (inr v)
        | inr (n, e) ↦ subst P (sym e) (
            start-IsLive (record r { watchdog = record (r.watchdog) { expired = n } }) v.busy
              v.watched.due v.watched.past)
      ]
