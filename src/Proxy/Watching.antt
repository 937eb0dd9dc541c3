-- ===== src/Proxy/Watching.antt =====
-- The class `watchdog` of asio/proxy/server.cc: a timer that is set to a deadline, and set again as
-- long as the deadline moves.
use cc_snippets.Prelude.{
  ℕ, zero, suc, ◌+◌, Bool, true, false, Option, none, some, leb, if◌then◌else◌,
}

-- `timer_`, as the pending wait and the number of queued handlers of waits that have expired, and
-- `deadline_`
pub record Watchdog : Type 0 where
  pub wait : Option ℕ
  pub expired : ℕ
  pub deadline : ℕ

-- `start (cb)` at a time: whether it calls `cb`, and the watchdog
unfoldable pub start : ℕ → Watchdog → Watchdog × Bool
start now w = if leb w.deadline now then (w, true) else (record w { wait = some w.deadline }, false)

unfoldable pub stop : Watchdog → Watchdog
stop w = record w { wait = none }

unfoldable pub delay : ℕ → ℕ → Watchdog → Watchdog
delay now dur w = record w { deadline = now + dur }

-- the timer notices that a pending wait has expired
unfoldable pub expire : ℕ → Watchdog → Watchdog
expire now w = elim w.wait [
  | none ↦ w
  | some e ↦ if leb e now then record w { wait = none; expired = w.expired + 1 } else w
]

-- `handle_wait` of a wait that has expired, if there is one in the queue
unfoldable pub run_wait : ℕ → Watchdog → Watchdog × Bool
unfolding start
run_wait now w = elim w.expired [ zero ↦ (w, false) | suc n ↦ start now (record w { expired = n }) ]
