-- ===== src/Websocket/Handler/Heartbeat.antt =====
-- A peer that stops answering is let go at the first tick behind the timeout.
use alert_distributor.Base.{
  ℕ, ◌+◌, ◌≤◌, ◌≡◌, none, List, [], ◌∷◌, ◌++◌, arith, Option-cases, inl, inr,
}
use alert_distributor.Websocket.Handler.{Input, tick, Transport, Live, socket_loop}
use alert_distributor.Websocket.Handler.Loop.{
  Stays, last_pong_after, pong_after, socket_loop-IsOpen,
}

module _ {Message : Type 0} (transport : Transport Message) (heartbeat_timeout : ℕ) where
  Stays-append :
      (early late : List (Input Message)) (last_pong : ℕ)
      → Stays transport heartbeat_timeout (early ++ late) last_pong
      → Stays transport heartbeat_timeout late
          (last_pong_after transport heartbeat_timeout early last_pong)
  Stays-append [] late last_pong h = h
  Stays-append (input ∷ early) late last_pong h =
      Stays-append early late (pong_after transport heartbeat_timeout input last_pong) h.1

  -- The loop of a connection ends when a tick comes at least the timeout after the last pong among
  -- the inputs before it (or after the start, when there was none), whatever comes behind.
  pub heartbeat_closes :
      (early late : List (Input Message)) (live : Live transport heartbeat_timeout) (now : ℕ)
      → last_pong_after transport heartbeat_timeout early live.last_pong + heartbeat_timeout ≤ now
      → socket_loop transport heartbeat_timeout (early ++ tick now ∷ late) live ≡ none
  heartbeat_closes early late live now old =
      elim (Option-cases
        (socket_loop transport heartbeat_timeout (early ++ tick now ∷ late) live)) [
          | inl e ↦ e
          | inr (live', e) ↦
              let o = (socket_loop-IsOpen transport heartbeat_timeout _ live live').0 e in
              let stays = (Stays-append early (tick now ∷ late) live.last_pong o.stays).0 in
              absurd (ground (arith, stays, old))
        ]
