-- ===== src/Daemon/Run.antt =====
-- A run of the daemon of src/daemon.rs: the tasks take turns at the shared state, one handler at a
-- time, in whatever order their inputs arrive.
use mesh_vpn.Base.{ℕ, Bool, Option, ◌≡◌, Bytes}
use mesh_vpn.Net.{SocketAddr, Noise, Draw, Parsers}
use mesh_vpn.Coordinatord.{PollResponse}
use mesh_vpn.Daemon.State.{Shared}
use mesh_vpn.Daemon.Datagram.{on_datagram}
use mesh_vpn.Daemon.Relayed.{RelayedPacket, on_relayed}
use mesh_vpn.Daemon.Tun.{Action, step, on_tun_packet, account}
use mesh_vpn.Daemon.Timer.{Draws, tick}
use mesh_vpn.Daemon.Poll.{on_poll_response}

module _ {H T : Type 0} (N : Noise H T) (P : Parsers) where
  -- One handler, with the instant at which it runs and what it draws.
  pub data Step : Shared H T → Shared H T → Type 0 where
    datagram :
        (s : Shared H T) (now : ℕ) (draw : Draw) (addr : SocketAddr) (bytes : Bytes)
        → Step s (on_datagram N now draw addr bytes s).1
    relayed :
        (s : Shared H T) (now : ℕ) (draw : Draw) (pkt : RelayedPacket)
        → Step s (on_relayed N now draw pkt s).1
    from_tun :
        (s s' : Shared H T) (now : ℕ) (pad_draw hs_draw : Draw) (has_relay : Bool) (bytes : Bytes)
        (action : Option Action)
        → on_tun_packet N now pad_draw hs_draw has_relay bytes s ≡ step action s'
        → Step s s'
    accounted :
        (s : Shared H T) (taken : Bool) (action : Option Action) → Step s (account taken action s)
    ticked :
        (s : Shared H T) (now : ℕ) (has_relay : Bool) (draws : ℕ → Draws)
        → Step s (tick N now has_relay draws s).1
    polled :
        (s : Shared H T) (now : ℕ) (resp : Option PollResponse)
        → Step s (on_poll_response P now resp s).1

  -- Any number of handlers, one after the other.
  pub data Run (s : Shared H T) : Shared H T → Type 0 where
    start : Run s s
    next : {t u : Shared H T} → Run s t → Step t u → Run s u
