-- ===== src/EchoClient/Totals.antt =====
-- Sums over the sessions of asio/echo/client.cc and asio/echo/co_client.cc, and counters that are
-- such sums.
use cc_snippets.Prelude.{sum_by, sum_by-set, ℕ, ◌+◌, ◌≡◌, List, some, arith, get_elem?, set}
use cc_snippets.EchoClient.{
  Phase, Session, World, monitor_step, Monitor, polling, testing_connected, measuring, stopping,
  summing, returned, testing_stop, testing_completed, leaving,
}

abbrev pub total : (Phase → ℕ) → List Session → ℕ
total f l = sum_by (λ (s : Session). f s.phase) l

-- The sessions are counted by their phases: those whose connection has been tried, that are
-- connected, and that have failed.
module _ (past live lost : Phase → ℕ) where
  pub record IsTotal (w : World) : Type 0 where
    pub completed : w.completed ≡ total past w.sessions
    pub connected : w.connected ≡ total live w.sessions
    pub failed : w.failed ≡ total lost w.sessions

  -- A step changes each counter by what the phase of its session changes.
  pub move-IsTotal :
      (w w' : World) (i : ℕ) (s s' : Session)
      → get_elem? w.sessions i ≡ some s
      → IsTotal w
      → w'.completed + past s.phase ≡ w.completed + past s'.phase
      → w'.connected + live s.phase ≡ w.connected + live s'.phase
      → w'.failed + lost s.phase ≡ w.failed + lost s'.phase
      → IsTotal (record w' { sessions = set w.sessions i s' })
  move-IsTotal w w' i s s' g v a b c = record {
    completed =
        omega (arith, v.completed, sum_by-set (λ (s : Session). past s.phase) w.sessions i s s' g);
    connected =
        omega (arith, v.connected, sum_by-set (λ (s : Session). live s.phase) w.sessions i s s' g);
    failed =
        omega (arith, v.failed, sum_by-set (λ (s : Session). lost s.phase) w.sessions i s s' g);
  }

  pub monitor_step-IsTotal : (w : World) (m : Monitor) → IsTotal w → IsTotal (monitor_step w m)
  unfolding monitor_step
  monitor_step-IsTotal w testing_stop v = record {
    completed = v.completed;
    connected = v.connected;
    failed = v.failed;
  }
  monitor_step-IsTotal w testing_completed v = record {
    completed = v.completed;
    connected = v.connected;
    failed = v.failed;
  }
  monitor_step-IsTotal w leaving v = record {
    completed = v.completed;
    connected = v.connected;
    failed = v.failed;
  }
  monitor_step-IsTotal w (polling a b) v = record {
    completed = v.completed;
    connected = v.connected;
    failed = v.failed;
  }
  monitor_step-IsTotal w (testing_connected a b) v = record {
    completed = v.completed;
    connected = v.connected;
    failed = v.failed;
  }
  monitor_step-IsTotal w (measuring a b) v = record {
    completed = v.completed;
    connected = v.connected;
    failed = v.failed;
  }
  monitor_step-IsTotal w (stopping b) v = record {
    completed = v.completed;
    connected = v.connected;
    failed = v.failed;
  }
  monitor_step-IsTotal w (summing b) v = record {
    completed = v.completed;
    connected = v.connected;
    failed = v.failed;
  }
  monitor_step-IsTotal w (returned r) v = v
