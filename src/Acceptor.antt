-- ===== src/Acceptor.antt =====
-- The class `server` of asio/proxy/server.cc: it accepts one connection after the other, and each
-- gets a session, of whatever kind `Protocol` says. The program has one thread, so a session starts
-- in the step that accepts its connection.
pub mod Sessions
mod Tests
use cc_snippets.Prelude.{
  ℕ, Bool, true, false, List, [], ◌∷◌, ◌++◌, Option, none, some, if◌then◌else◌, get_elem?, set,
}

-- A session as a server sees it: how it begins, at a time, and what an event does to it.
pub record Protocol (S E : Type 0) : Type 0 where
  pub begin : ℕ → S
  pub step : S → E → S

-- `accepting` tells whether async_accept is pending; `sessions` are all that were started.
pub record Server (S : Type 0) : Type 0 where
  pub accepting : Bool
  pub sessions : List S

pub data Event (E : Type 0) : Type 0 where
  -- async_accept ends, at a time, with an error or without
  accepts : (error : Bool) (clock : ℕ) → Event E
  -- something happens to a session
  serves : (place : ℕ) → E → Event E

module _ {S E : Type 0} (p : Protocol S E) where
  unfoldable pub start : Server S → Server S
  start v = record v { accepting = true }

  unfoldable pub handle_accept : Bool → ℕ → Server S → Server S
  unfolding start
  handle_accept error clock v =
      if error then v else start (record v { sessions = v.sessions ++ p.begin clock ∷ [] })

  -- The handler runs if an accept was pending, which is not pending any more.
  unfoldable pub accept : Bool → ℕ → Server S → Server S
  unfolding handle_accept
  accept error clock v =
      if v.accepting then handle_accept error clock (record v { accepting = false }) else v

  unfoldable pub serve_at : Server S → ℕ → E → Option S → Server S
  serve_at v i e none = v
  serve_at v i e (some s) = record v { sessions = set v.sessions i (p.step s e) }

  unfoldable pub serve : Server S → Event E → Server S
  unfolding accept serve_at
  serve v (accepts error clock) = accept error clock v
  serve v (serves i e) = serve_at v i e (get_elem? v.sessions i)

  unfoldable pub run_server : Server S → List (Event E) → Server S
  unfolding serve
  run_server v [] = v
  run_server v (e ∷ es) = run_server (serve v e) es

  -- a server whose constructor and `start` have run
  unfoldable pub listen : Server S
  unfolding start
  listen = start (record { accepting = false; sessions = [] })

  -- the events of one session alone
  unfoldable pub run_session : S → List E → S
  run_session s [] = s
  run_session s (e ∷ es) = run_session (p.step s e) es
