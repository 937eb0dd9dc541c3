-- ===== src/Proxy/Tests.antt =====
-- The theorems about asio/proxy/server.cc on sessions with a timeout of 5.
use cc_snippets.Prelude.{◌+◌, ◌≡◌, refl, true, false, not, List, [], ◌∷◌, leb, ◌⊎◌}
use cc_snippets.Channel.{fails, succeeds, fill, drain}
use cc_snippets.Channel.Relayed.{IsRelaying}
use cc_snippets.Proxy.Watching
use cc_snippets.Proxy.{
  Session, begin, stop, receive_from_client, send_to_server, receive_from_server, up_watched,
  down_watched, start_watchdogs, start, handle_connect, received_from_client, sent_to_server, Event,
  ticks, connects, completes_up, completes_down, expires_up, expires_down, handles_up, handles_down,
  connect, complete_up, idle, step, run,
}
use cc_snippets.Proxy.Relaying.{run_relays}
use cc_snippets.Proxy.Claims.{run_guards, run_cuts, IsGuarded}
use cc_snippets.Proxy.Errors.{run_fails, of_down, IsClosed}

-- The client sends two bytes at 4 and one more at 6, which the server has not taken yet; the server
-- sends nothing.
abbrev events : List Event
events =
    connects (succeeds [])
    ∷ ticks 4
    ∷ completes_up (succeeds (7 ∷ 8 ∷ []))
    ∷ completes_up (succeeds [])
    ∷ ticks 2
    ∷ completes_up (succeeds (9 ∷ []))
    ∷ []

abbrev one_way : Session
one_way = run (start 5 0) events

run_relays_example : IsRelaying one_way.up.channel × IsRelaying one_way.down.channel
run_relays_example = run_relays 5 0 events

run_guards_example :
    (one_way.client_open ≡ one_way.server_open)
    × ((one_way.connecting ≡ true)
        ⊎ (one_way.client_open ≡ false)
        ⊎ (IsGuarded one_way.timeout one_way.up × IsGuarded one_way.timeout one_way.down))
run_guards_example = run_guards 5 0 events one_way refl

-- The server's silence closes the session, though the client has just sent.
run_cuts_example :
    ((run one_way (expires_up ∷ handles_up ∷ [])).client_open
      ≡ not (leb (one_way.up.begun + one_way.timeout) one_way.clock))
    × ((run one_way (expires_down ∷ handles_down ∷ [])).client_open
        ≡ not (leb (one_way.down.begun + one_way.timeout) one_way.clock))
unfolding run step start connect handle_connect receive_from_client receive_from_server begin
    start_watchdogs up_watched down_watched complete_up received_from_client sent_to_server
    send_to_server idle fill drain Watching.start Watching.delay
run_cuts_example = run_cuts 5 0 events one_way refl refl refl

one_way_cut : (run one_way (expires_down ∷ handles_down ∷ [])).client_open ≡ false
unfolding run step start connect handle_connect receive_from_client receive_from_server begin
    start_watchdogs up_watched down_watched complete_up received_from_client sent_to_server
    send_to_server idle fill drain Watching.start Watching.delay Watching.expire Watching.run_wait
    stop
one_way_cut = refl

run_fails_example : IsClosed (run (step one_way (completes_down fails)) (ticks 9 ∷ handles_up ∷ []))
unfolding run step start connect handle_connect receive_from_client receive_from_server begin
    start_watchdogs up_watched down_watched complete_up received_from_client sent_to_server
    send_to_server idle fill drain Watching.start Watching.delay
run_fails_example =
    run_fails one_way (completes_down fails) (ticks 9 ∷ handles_up ∷ []) (of_down (λ e. cc))
