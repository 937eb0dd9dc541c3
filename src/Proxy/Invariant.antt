-- ===== src/Proxy/Invariant.antt =====
-- What every run of a session of asio/proxy/server.cc keeps.
use cc_snippets.Prelude.{◌≡◌, ◌≢◌, refl, Bool, true, false, inl, inr, ◌⊎◌, length, take}
use cc_snippets.Channel.{
  buffer_size, Pending, nothing, receiving, sending, Completion, fails, succeeds, Channel, fill,
  drain,
}
use cc_snippets.Proxy.Watching.{Watchdog}
use cc_snippets.Proxy.{
  Session, begin, stop, receive_from_client, send_to_server, receive_from_server, send_to_client,
  up_watched, down_watched, received_from_client, sent_to_server, received_from_server,
  sent_to_client, complete_up, complete_down, idle,
}
use cc_snippets.Proxy.Watched.{IsLive, channel-IsWatched, begin-IsLive}

pub record IsValid (s : Session) : Type 0 where
  pub together : s.client_open ≡ s.server_open
  pub live :
      (s.connecting ≡ true)
      ⊎ (s.client_open ≡ false)
      ⊎ (IsLive s.clock s.timeout s.up × IsLive s.clock s.timeout s.down)

-- What is known of a direction and of a watchdog that has just run.
unfoldable pub IsChecked : Session → Type 0 → Type 0
IsChecked s P = (s.connecting ≡ true) ⊎ (s.client_open ≡ false) ⊎ P

stop-IsValid : (s : Session) → IsValid (stop s)
unfolding stop
stop-IsValid s = record { together = refl; live = inr (inl refl) }

pub up_watched-IsValid :
    (s : Session) (x : Watchdog × Bool)
    → s.client_open ≡ s.server_open
    → IsChecked s (
        ((x.1 ≡ true) ⊎ IsLive s.clock s.timeout (record (s.up) { watchdog = x.0 }))
        × IsLive s.clock s.timeout s.down)
    → IsValid (up_watched s x)
unfolding up_watched IsChecked
up_watched-IsValid s (w, true) t v = stop-IsValid (record s { up = record (s.up) { watchdog = w } })
up_watched-IsValid s (w, false) t v = record {
  together = t;
  live = elim v [
    | inl c ↦ inl c
    | inr (inl c) ↦ inr (inl c)
    | inr (inr (inl e, d)) ↦ cc
    | inr (inr (inr u, d)) ↦ inr (inr (u, d))
  ];
}

pub down_watched-IsValid :
    (s : Session) (x : Watchdog × Bool)
    → s.client_open ≡ s.server_open
    → IsChecked s (
        IsLive s.clock s.timeout s.up
        × ((x.1 ≡ true) ⊎ IsLive s.clock s.timeout (record (s.down) { watchdog = x.0 })))
    → IsValid (down_watched s x)
unfolding down_watched IsChecked
down_watched-IsValid s (w, true) t v =
    stop-IsValid (record s { down = record (s.down) { watchdog = w } })
down_watched-IsValid s (w, false) t v = record {
  together = t;
  live = elim v [
    | inl c ↦ inl c
    | inr (inl c) ↦ inr (inl c)
    | inr (inr (u, inl e)) ↦ cc
    | inr (inr (u, inr d)) ↦ inr (inr (u, d))
  ];
}

-- An operation of one direction begins.
up-IsValid :
    (s : Session) (p : Pending) (c : Channel)
    → p ≢ nothing
    → IsValid s
    → IsValid (record s { up = begin s.clock s.timeout p (record (s.up) { channel = c }) })
up-IsValid s p c n v = record {
  together = v.together;
  live = elim v.live [
    | inl o ↦ inl o
    | inr (inl o) ↦ inr (inl o)
    | inr (inr (u, d)) ↦ inr (
        inr (
          begin-IsLive s.clock s.timeout (record (s.up) { channel = c }) p n
              (channel-IsWatched s.clock s.timeout s.up c u.watched),
          d,
        ))
  ];
}

down-IsValid :
    (s : Session) (p : Pending) (c : Channel)
    → p ≢ nothing
    → IsValid s
    → IsValid (record s { down = begin s.clock s.timeout p (record (s.down) { channel = c }) })
down-IsValid s p c n v = record {
  together = v.together;
  live = elim v.live [
    | inl o ↦ inl o
    | inr (inl o) ↦ inr (inl o)
    | inr (inr (u, d)) ↦ inr (
        inr (
          u,
          begin-IsLive s.clock s.timeout (record (s.down) { channel = c }) p n
              (channel-IsWatched s.clock s.timeout s.down c d.watched),
        ))
  ];
}

pub complete_up-IsValid :
    (s : Session) (p : Pending) (c : Completion) → IsValid s → IsValid (complete_up s p c)
unfolding complete_up received_from_client sent_to_server send_to_server receive_from_client idle
    begin fill drain
complete_up-IsValid s nothing c v = v
complete_up-IsValid s receiving fails v = stop-IsValid (record s { up = idle s.up })
complete_up-IsValid s receiving (succeeds bytes) v =
    up-IsValid s (sending (length (take buffer_size bytes))) (fill bytes s.up.channel) (λ e. cc) v
complete_up-IsValid s (sending n) fails v = stop-IsValid (record s { up = idle s.up })
complete_up-IsValid s (sending n) (succeeds bytes) v =
    up-IsValid s receiving (drain n s.up.channel) (λ e. cc) v

pub complete_down-IsValid :
    (s : Session) (p : Pending) (c : Completion) → IsValid s → IsValid (complete_down s p c)
unfolding complete_down received_from_server sent_to_client send_to_client receive_from_server idle
    begin fill drain
complete_down-IsValid s nothing c v = v
complete_down-IsValid s receiving fails v = stop-IsValid (record s { down = idle s.down })
complete_down-IsValid s receiving (succeeds bytes) v =
    down-IsValid s (sending (length (take buffer_size bytes))) (fill bytes s.down.channel) (λ e. cc)
      v
complete_down-IsValid s (sending n) fails v = stop-IsValid (record s { down = idle s.down })
complete_down-IsValid s (sending n) (succeeds bytes) v =
    down-IsValid s receiving (drain n s.down.channel) (λ e. cc) v
