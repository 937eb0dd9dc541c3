-- ===== src/Proxy/Relaying.antt =====
-- The bytes of both directions of a session of asio/proxy/server.cc.
use cc_snippets.Prelude.{ℕ, ◌≡◌, ◌≢◌, refl, Bool, true, false, List, [], ◌∷◌, arith, inl, inr, ◌⊎◌}
use cc_snippets.Channel.{
  Pending, nothing, receiving, sending, Completion, fails, succeeds, Channel, new_buffer,
}
use cc_snippets.Channel.Relayed.{
  IsRelayed, idle-IsRelayed, fill-IsRelayed, drain-IsRelayed, first-IsRelayed, IsRelaying,
  IsRelayed-IsRelaying,
}
use cc_snippets.Proxy.Watching
use cc_snippets.Proxy.Watching.{Watchdog}
use cc_snippets.Proxy.{
  Session, begin, stop, receive_from_client, send_to_server, receive_from_server, send_to_client,
  up_watched, down_watched, start_watchdogs, start, handle_connect, received_from_client,
  sent_to_server, received_from_server, sent_to_client, Event, ticks, connects, completes_up,
  completes_down, expires_up, expires_down, handles_up, handles_down, connect, complete_up,
  complete_down, idle, step, run,
}

-- Nothing has gone through a channel yet.
record IsFresh (c : Channel) : Type 0 where
  quiet : c.pending ≡ nothing
  even : c.received ≡ c.sent

record IsServing (s : Session) : Type 0 where
  up : IsRelayed s.up.channel
  down : IsRelayed s.down.channel
  fresh : (s.connecting ≡ false) ⊎ (IsFresh s.up.channel × IsFresh s.down.channel)

-- What runs a watchdog or closes the sockets leaves the channels alone.
stop-IsServing : (s : Session) → IsServing s → IsServing (stop s)
unfolding stop
stop-IsServing s v = record { up = v.up; down = v.down; fresh = v.fresh }

up_watched-IsServing :
    (s : Session) (x : Watchdog × Bool) → IsServing s → IsServing (up_watched s x)
unfolding up_watched stop
up_watched-IsServing s (w, true) v = record { up = v.up; down = v.down; fresh = v.fresh }
up_watched-IsServing s (w, false) v = record { up = v.up; down = v.down; fresh = v.fresh }

down_watched-IsServing :
    (s : Session) (x : Watchdog × Bool) → IsServing s → IsServing (down_watched s x)
unfolding down_watched stop
down_watched-IsServing s (w, true) v = record { up = v.up; down = v.down; fresh = v.fresh }
down_watched-IsServing s (w, false) v = record { up = v.up; down = v.down; fresh = v.fresh }

connect-IsServing :
    (s : Session) (b : Bool) (c : Completion)
    → s.connecting ≡ b
    → IsServing s
    → IsServing (connect s b c)
unfolding connect handle_connect receive_from_client receive_from_server begin start_watchdogs
connect-IsServing s false c e v = v
connect-IsServing s true fails e v = record { up = v.up; down = v.down; fresh = inl refl }
connect-IsServing s true (succeeds bytes) e v = elim v.fresh [
  | inl f ↦ cc
  | inr (f, g) ↦
      let s' = receive_from_server (receive_from_client (record s { connecting = false })) in
      let v' : IsServing s' = record {
        up = first-IsRelayed s.up.channel f.even;
        down = first-IsRelayed s.down.channel g.even;
        fresh = inl refl;
      } in
      down_watched-IsServing _ _
        (up_watched-IsServing s' (Watching.start s'.clock s'.up.watchdog) v')
]

-- A direction with an operation pending is not fresh.
connected :
    (s : Session)
    → (s.up.channel.pending ≢ nothing) ⊎ (s.down.channel.pending ≢ nothing)
    → IsServing s
    → s.connecting ≡ false
connected s n v = elim v.fresh [
  | inl f ↦ f
  | inr (f, g) ↦ elim n [ inl h ↦ elim (h f.quiet) [ ] | inr h ↦ elim (h g.quiet) [ ] ]
]

complete_up-IsServing :
    (s : Session) (p : Pending) (c : Completion)
    → s.up.channel.pending ≡ p
    → IsServing s
    → IsServing (complete_up s p c)
unfolding complete_up received_from_client sent_to_server send_to_server receive_from_client idle
    begin stop
complete_up-IsServing s nothing c e v = v
complete_up-IsServing s receiving fails e v = record {
  up = idle-IsRelayed s.up.channel v.up;
  down = v.down;
  fresh = inl (connected s (inl (λ h. cc)) v);
}
complete_up-IsServing s receiving (succeeds bytes) e v = record {
  up = fill-IsRelayed s.up.channel bytes e v.up;
  down = v.down;
  fresh = inl (connected s (inl (λ h. cc)) v);
}
complete_up-IsServing s (sending n) fails e v = record {
  up = idle-IsRelayed s.up.channel v.up;
  down = v.down;
  fresh = inl (connected s (inl (λ h. cc)) v);
}
complete_up-IsServing s (sending n) (succeeds bytes) e v = record {
  up = drain-IsRelayed s.up.channel n e v.up;
  down = v.down;
  fresh = inl (connected s (inl (λ h. cc)) v);
}

complete_down-IsServing :
    (s : Session) (p : Pending) (c : Completion)
    → s.down.channel.pending ≡ p
    → IsServing s
    → IsServing (complete_down s p c)
unfolding complete_down received_from_server sent_to_client send_to_client receive_from_server idle
    begin stop
complete_down-IsServing s nothing c e v = v
complete_down-IsServing s receiving fails e v = record {
  up = v.up;
  down = idle-IsRelayed s.down.channel v.down;
  fresh = inl (connected s (inr (λ h. cc)) v);
}
complete_down-IsServing s receiving (succeeds bytes) e v = record {
  up = v.up;
  down = fill-IsRelayed s.down.channel bytes e v.down;
  fresh = inl (connected s (inr (λ h. cc)) v);
}
complete_down-IsServing s (sending n) fails e v = record {
  up = v.up;
  down = idle-IsRelayed s.down.channel v.down;
  fresh = inl (connected s (inr (λ h. cc)) v);
}
complete_down-IsServing s (sending n) (succeeds bytes) e v = record {
  up = v.up;
  down = drain-IsRelayed s.down.channel n e v.down;
  fresh = inl (connected s (inr (λ h. cc)) v);
}

step-IsServing : (s : Session) (e : Event) → IsServing s → IsServing (step s e)
unfolding step
step-IsServing s (ticks n) v = record { up = v.up; down = v.down; fresh = v.fresh }
step-IsServing s (connects c) v = connect-IsServing s s.connecting c refl v
step-IsServing s (completes_up c) v = complete_up-IsServing s s.up.channel.pending c refl v
step-IsServing s (completes_down c) v = complete_down-IsServing s s.down.channel.pending c refl v
step-IsServing s expires_up v = record { up = v.up; down = v.down; fresh = v.fresh }
step-IsServing s expires_down v = record { up = v.up; down = v.down; fresh = v.fresh }
step-IsServing s handles_up v = up_watched-IsServing s (Watching.run_wait s.clock s.up.watchdog) v
step-IsServing s handles_down v =
    down_watched-IsServing s (Watching.run_wait s.clock s.down.watchdog) v

run-IsServing : (s : Session) (es : List Event) → IsServing s → IsServing (run s es)
unfolding run
run-IsServing s [] v = v
run-IsServing s (e ∷ es) v = run-IsServing (step s e) es (step-IsServing s e v)

start-IsServing : (timeout clock : ℕ) → IsServing (start timeout clock)
unfolding start
start-IsServing timeout clock =
    let v : IsRelayed
        (record { pending = nothing; buffer = new_buffer; received = []; sent = [] }) =
      record { rest = []; split = refl; bounded = omega arith; agrees = inl refl } in
    record {
      up = v;
      down = v;
      fresh = inr (record { quiet = refl; even = refl }, record { quiet = refl; even = refl });
    }

-- In every run of a session of the proxy, for each direction: the bytes written to one side are
-- the first of those received from the other, in their order, and all but at most `buffer_size` of
-- them; and all of them while a receive is pending.
pub run_relays :
    (timeout clock : ℕ) (es : List Event)
    → IsRelaying (run (start timeout clock) es).up.channel
      × IsRelaying (run (start timeout clock) es).down.channel
run_relays timeout clock es =
    let v = run-IsServing _ es (start-IsServing timeout clock) in
    (IsRelayed-IsRelaying _ v.up, IsRelayed-IsRelaying _ v.down)
