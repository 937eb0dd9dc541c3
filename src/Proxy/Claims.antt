-- ===== src/Proxy/Claims.antt =====
-- Properties of the runs of a session of asio/proxy/server.cc.
use mathlib.Core.Path.{subst}
use cc_snippets.Prelude.{
  ℕ, ◌+◌, ◌≤◌, ◌<◌, ◌≡◌, ◌≢◌, refl, ap, ◌∙◌, Bool, true, false, not, List, [], ◌∷◌, some, arith,
  leb, Bool-cases, inl, inr, ◌⊎◌,
}
use cc_snippets.Channel.{nothing}
use cc_snippets.Proxy.Watching
use cc_snippets.Proxy.Watching.{Watchdog}
use cc_snippets.Proxy.{
  Relay, Session, stop, up_watched, down_watched, start, Event, expires_up, expires_down,
  handles_up, handles_down, step, run,
}
use cc_snippets.Proxy.Watched.{IsLive, expire-cases, run_wait-cases}
use cc_snippets.Proxy.Invariant.{IsValid}
use cc_snippets.Proxy.Valid.{reached-IsValid}

-- An operation of the direction is pending, and its timer is set to a time at most the timeout
-- after it was begun, or the handler of a wait that has expired is in the queue.
pub IsGuarded : ℕ → Relay → Type 0
IsGuarded timeout r =
    (r.channel.pending ≢ nothing)
    × (((e : ℕ) × (r.watchdog.wait ≡ some e) × (e ≤ r.begun + timeout)) ⊎ (0 < r.watchdog.expired))

IsLive-IsGuarded : (clock timeout : ℕ) (r : Relay) → IsLive clock timeout r → IsGuarded timeout r
unfolding IsGuarded
IsLive-IsGuarded clock timeout r v = (
  v.busy,
  elim v.watched.armed [ inl (e, q, l) ↦ inl (e, q, omega (arith, v.watched.due)) | inr f ↦ inr f ],
)

open_live :
    (s : Session)
    → IsValid s
    → s.connecting ≡ false
    → s.client_open ≡ true
    → IsLive s.clock s.timeout s.up × IsLive s.clock s.timeout s.down
open_live s v c o = elim v.live [ inl h ↦ cc | inr (inl h) ↦ cc | inr (inr l) ↦ l ]

-- In every run of a session of the proxy, its two sockets are open or closed together. While they
-- are open, once the connection to the server is made, each direction has an operation pending, and
-- either its timer is set to a time at most the timeout after that operation was begun, or the
-- handler of a wait that has expired is in the queue.
pub run_guards :
    (timeout clock : ℕ) (es : List Event) (s : Session)
    → run (start timeout clock) es ≡ s
    → (s.client_open ≡ s.server_open)
      × ((s.connecting ≡ true)
          ⊎ (s.client_open ≡ false)
          ⊎ (IsGuarded s.timeout s.up × IsGuarded s.timeout s.down))
run_guards timeout clock es s r =
    let v = subst IsValid r (reached-IsValid timeout clock es) in
    (
      v.together,
      elim v.live [
        | inl c ↦ inl c
        | inr (inl c) ↦ inr (inl c)
        | inr (inr (u, d)) ↦ inr (
            inr (
              IsLive-IsGuarded s.clock s.timeout s.up u,
              IsLive-IsGuarded s.clock s.timeout s.down d,
            ))
      ],
    )

start-called : (now : ℕ) (w : Watchdog) → (Watching.start now w).1 ≡ leb w.deadline now
unfolding Watching.start
start-called now w = elim (Bool-cases (leb w.deadline now)) [
  | inl t ↦ rw t refl
  | inr f ↦ rw f refl
]

run_wait-called :
    (now : ℕ) (w : Watchdog)
    → (0 < w.expired) ⊎ (now < w.deadline)
    → (Watching.run_wait now w).1 ≡ leb w.deadline now
run_wait-called now w h = elim (run_wait-cases now w) [
  | inl (z, e) ↦ rw e (ground arith)
  | inr (n, e) ↦ rw (e, start-called now (record w { expired = n })) refl
]

expire-deadline : (now : ℕ) (w : Watchdog) → (Watching.expire now w).deadline ≡ w.deadline
expire-deadline now w = elim (expire-cases now w) [ inl e ↦ rw e refl | inr e ↦ rw e refl ]

expire-ready :
    (now : ℕ) (w : Watchdog)
    → ((e : ℕ) × (w.wait ≡ some e) × (e ≤ w.deadline)) ⊎ (0 < w.expired)
    → (0 < (Watching.expire now w).expired) ⊎ (now < w.deadline)
unfolding Watching.expire
expire-ready now w (inl (e, q, l)) = elim (Bool-cases (leb e now)) [
  | inl t ↦ inl (ground arith)
  | inr f ↦ inr (ground arith)
]
expire-ready now w (inr h) = elim (expire-cases now w) [
  | inl e ↦ inl (rw e h)
  | inr e ↦ inl (rw e (omega arith))
]

wakes :
    (clock timeout : ℕ) (r : Relay)
    → IsLive clock timeout r
    → (Watching.run_wait clock (Watching.expire clock r.watchdog)).1 ≡ leb (r.begun + timeout) clock
wakes clock timeout r v =
    let w = Watching.expire clock r.watchdog in
    let d : w.deadline ≡ r.begun + timeout = expire-deadline clock r.watchdog ∙ v.watched.due in
    run_wait-called clock w (elim (expire-ready clock r.watchdog v.watched.armed) [
      | inl h ↦ inl h
      | inr h ↦ inr (omega (arith, d, v.watched.due))
    ])
    ∙ ap (λ x. leb x clock) d

up_watched-open :
    (s : Session) (x : Watchdog × Bool)
    → s.client_open ≡ true
    → (up_watched s x).client_open ≡ not x.1
unfolding up_watched stop
up_watched-open s (w, true) o = refl
up_watched-open s (w, false) o = o

down_watched-open :
    (s : Session) (x : Watchdog × Bool)
    → s.client_open ≡ true
    → (down_watched s x).client_open ≡ not x.1
unfolding down_watched stop
down_watched-open s (w, true) o = refl
down_watched-open s (w, false) o = o

-- In every run of a session of the proxy whose connection to the server is made and whose sockets
-- are open, the timer of a direction is served: when a wait that is due expires and its handler runs,
-- the session is closed if the direction's last operation was begun at least the timeout ago, and
-- stays open if not, whatever the other direction does.
pub run_cuts :
    (timeout clock : ℕ) (es : List Event) (s : Session)
    → run (start timeout clock) es ≡ s
    → s.connecting ≡ false
    → s.client_open ≡ true
    → ((run s (expires_up ∷ handles_up ∷ [])).client_open
        ≡ not (leb (s.up.begun + s.timeout) s.clock))
      × ((run s (expires_down ∷ handles_down ∷ [])).client_open
          ≡ not (leb (s.down.begun + s.timeout) s.clock))
unfolding run step
run_cuts timeout clock es s r c o =
    let v = open_live s (subst IsValid r (reached-IsValid timeout clock es)) c o in
    let up = record s { up = record (s.up) { watchdog = Watching.expire s.clock s.up.watchdog } } in
    let down = record s {
      down = record (s.down) { watchdog = Watching.expire s.clock s.down.watchdog };
    } in
    (
      up_watched-open up (Watching.run_wait s.clock up.up.watchdog) o
          ∙ ap not (wakes s.clock s.timeout s.up v.0),
      down_watched-open down (Watching.run_wait s.clock down.down.watchdog) o
          ∙ ap not (wakes s.clock s.timeout s.down v.1),
    )
