-- ===== src/Acceptor/Tests.antt =====
-- The theorems about the server of asio/proxy/server.cc.
use cc_snippets.Prelude.{◌≡◌, true, false, List, [], ◌∷◌, length}
use cc_snippets.Channel.{fails, succeeds}
use cc_snippets.Acceptor.{Server, Event, accepts, serves, serve, run_server, listen}
use cc_snippets.Acceptor.Sessions.{accept_times, AreSessions, run_isolated, run_refused}
use cc_snippets.Proxy
use cc_snippets.Proxy.{proxy}

-- Two connections; the first session connects to the target and gets two bytes, and the target of
-- the second refuses. Then an accept fails.
abbrev events : List (Event Proxy.Event)
events =
    accepts false 0
    ∷ accepts false 2
    ∷ serves 0 (Proxy.connects (succeeds []))
    ∷ serves 1 (Proxy.connects fails)
    ∷ serves 0 (Proxy.completes_up (succeeds (7 ∷ 8 ∷ [])))
    ∷ accepts true 3
    ∷ accepts false 4
    ∷ []

run_isolated_example :
    AreSessions proxy (run_server proxy (listen proxy) events).sessions (accept_times events)
run_isolated_example = run_isolated proxy events

-- a server that has accepted one connection
abbrev served : Server Proxy.Session
served = run_server proxy (listen proxy) (accepts false 0 ∷ [])

run_refused_example :
    length (run_server proxy (serve proxy served (accepts true 3)) (accepts false 4 ∷ [])).sessions
    ≡ length served.sessions
run_refused_example = run_refused proxy served 3 (accepts false 4 ∷ [])
