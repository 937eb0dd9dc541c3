-- ===== src/Proxy/Errors.antt =====
-- What an error does to a session of asio/proxy/server.cc.
use cc_snippets.Prelude.{◌≡◌, ◌≢◌, refl, Bool, true, false, List, [], ◌∷◌}
use cc_snippets.Channel.{Pending, nothing, receiving, sending, Completion, fails, succeeds}
use cc_snippets.Proxy.Watching
use cc_snippets.Proxy.Watching.{Watchdog}
use cc_snippets.Proxy.{
  Session, stop, receive_from_client, send_to_server, receive_from_server, send_to_client,
  up_watched, down_watched, start_watchdogs, handle_connect, received_from_client, sent_to_server,
  received_from_server, sent_to_client, Event, ticks, connects, completes_up, completes_down,
  expires_up, expires_down, handles_up, handles_down, connect, complete_up, complete_down, step,
  run,
}

unfoldable pub IsClosed : Session → Type 0
IsClosed s = (s.client_open ≡ false) × (s.server_open ≡ false)

-- The operation that an event ends is pending, and ends with an error.
pub data IsFailure (s : Session) : Event → Type 0 where
  of_connect : s.connecting ≡ true → IsFailure s (connects fails)
  of_up : s.up.channel.pending ≢ nothing → IsFailure s (completes_up fails)
  of_down : s.down.channel.pending ≢ nothing → IsFailure s (completes_down fails)

up_watched-IsClosed : (s : Session) (x : Watchdog × Bool) → IsClosed s → IsClosed (up_watched s x)
unfolding up_watched stop IsClosed
up_watched-IsClosed s (w, true) v = (refl, refl)
up_watched-IsClosed s (w, false) v = v

down_watched-IsClosed :
    (s : Session) (x : Watchdog × Bool) → IsClosed s → IsClosed (down_watched s x)
unfolding down_watched stop IsClosed
down_watched-IsClosed s (w, true) v = (refl, refl)
down_watched-IsClosed s (w, false) v = v

connect-IsClosed : (s : Session) (b : Bool) (c : Completion) → IsClosed s → IsClosed (connect s b c)
unfolding connect handle_connect start_watchdogs receive_from_client receive_from_server IsClosed
connect-IsClosed s false c v = v
connect-IsClosed s true fails v = (refl, refl)
connect-IsClosed s true (succeeds bytes) v =
    let s' = receive_from_server (receive_from_client (record s { connecting = false })) in
    let s'' = up_watched s' (Watching.start s'.clock s'.up.watchdog) in
    down_watched-IsClosed s'' (Watching.start s''.clock s''.down.watchdog)
      (up_watched-IsClosed s' (Watching.start s'.clock s'.up.watchdog) v)

complete_up-IsClosed :
    (s : Session) (p : Pending) (c : Completion) → IsClosed s → IsClosed (complete_up s p c)
unfolding complete_up received_from_client sent_to_server send_to_server receive_from_client stop
    IsClosed
complete_up-IsClosed s nothing c v = v
complete_up-IsClosed s receiving fails v = (refl, refl)
complete_up-IsClosed s receiving (succeeds bytes) v = v
complete_up-IsClosed s (sending n) fails v = (refl, refl)
complete_up-IsClosed s (sending n) (succeeds bytes) v = v

complete_down-IsClosed :
    (s : Session) (p : Pending) (c : Completion) → IsClosed s → IsClosed (complete_down s p c)
unfolding complete_down received_from_server sent_to_client send_to_client receive_from_server stop
    IsClosed
complete_down-IsClosed s nothing c v = v
complete_down-IsClosed s receiving fails v = (refl, refl)
complete_down-IsClosed s receiving (succeeds bytes) v = v
complete_down-IsClosed s (sending n) fails v = (refl, refl)
complete_down-IsClosed s (sending n) (succeeds bytes) v = v

step-IsClosed : (s : Session) (e : Event) → IsClosed s → IsClosed (step s e)
unfolding step IsClosed
step-IsClosed s (ticks n) v = v
step-IsClosed s (connects c) v = connect-IsClosed s s.connecting c v
step-IsClosed s (completes_up c) v = complete_up-IsClosed s s.up.channel.pending c v
step-IsClosed s (completes_down c) v = complete_down-IsClosed s s.down.channel.pending c v
step-IsClosed s expires_up v = v
step-IsClosed s expires_down v = v
step-IsClosed s handles_up v = up_watched-IsClosed s (Watching.run_wait s.clock s.up.watchdog) v
step-IsClosed s handles_down v =
    down_watched-IsClosed s (Watching.run_wait s.clock s.down.watchdog) v

run-IsClosed : (s : Session) (es : List Event) → IsClosed s → IsClosed (run s es)
unfolding run
run-IsClosed s [] v = v
run-IsClosed s (e ∷ es) v = run-IsClosed (step s e) es (step-IsClosed s e v)

complete_up-fails : (s : Session) (p : Pending) → p ≢ nothing → IsClosed (complete_up s p fails)
unfolding complete_up received_from_client sent_to_server stop IsClosed
complete_up-fails s nothing n = elim (n refl) [ ]
complete_up-fails s receiving n = (refl, refl)
complete_up-fails s (sending k) n = (refl, refl)

complete_down-fails : (s : Session) (p : Pending) → p ≢ nothing → IsClosed (complete_down s p fails)
unfolding complete_down received_from_server sent_to_client stop IsClosed
complete_down-fails s nothing n = elim (n refl) [ ]
complete_down-fails s receiving n = (refl, refl)
complete_down-fails s (sending k) n = (refl, refl)

step-fails : (s : Session) (e : Event) → IsFailure s e → IsClosed (step s e)
unfolding step connect handle_connect IsClosed
step-fails s _ (of_connect c) = rw c (refl, refl)
step-fails s _ (of_up n) = complete_up-fails s s.up.channel.pending n
step-fails s _ (of_down n) = complete_down-fails s s.down.channel.pending n

-- After the connection to the server or an operation of either direction that is pending has ended
-- with an error, both sockets are closed, and stay so whatever happens next.
pub run_fails :
    (s : Session) (e : Event) (es : List Event) → IsFailure s e → IsClosed (run (step s e) es)
run_fails s e es f = run-IsClosed (step s e) es (step-fails s e f)
