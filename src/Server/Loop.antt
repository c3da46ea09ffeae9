-- ===== src/Server/Loop.antt =====
-- `start`, `loop` and `shutdown` of zigbee_tcp_server.cpp. The times are those that `millis()` gives
-- where new clients are placed, and where the timeouts are tested.
use mathlib.Core.Option.{Option, none, some}
use zigbee_gateway.Common.{
  ℕ, ◌+◌, ◌-◌, ◌%◌, ◌^◌, Bool, true, false, not, ◌&&◌, ◌||◌, ltb, leb, ◌==◌, if◌then◌else◌,
}
use zigbee_gateway.Tcp.State.{
  is_normal, is_provisional, is_maintenance, disconnect_pending, timeout_pending, timeout_parked,
  expire_bsl_rendezvous, record_recovery_reset, shutdown as state_shutdown,
}
use zigbee_gateway.Serial.Owner.{unowned, local, same_owner}
use zigbee_gateway.Serial.Uart.{UartComponent}
use zigbee_gateway.Stream.Sockets.{Socket}
use zigbee_gateway.Server.Client.{connected, collect_prebuffer}
use zigbee_gateway.Server.Record.{
  ZigbeeTcpServer, ParentCall, reset_for_remote, on_tcp_maintenance_finished,
  on_tcp_normal_session_finished, close_active, close_pending, close_parked, clear_stream_buffers,
  publish_sensors, call_parent, own,
}
use zigbee_gateway.Server.Maintenance.{handle_active_disconnect}
use zigbee_gateway.Server.Handlers.{
  Listener, accept_clients, classify_active, pump_active, drain_parked,
}

-- What the network gives to `start`: whether it is connected, the listener that was created, and
-- whether it became non-blocking, was bound and listens.
pub record Network (L : Type 0) : Type 0 where
  pub is_connected : Bool
  pub created : Option L
  pub nonblocking : Bool
  pub bound : Bool
  pub listens : Bool

-- `a - b` on `uint32_t`.
abbrev pub elapsed : ℕ → ℕ → ℕ
elapsed a b = (a + 2 ^ 32 - b) % 2 ^ 32

module _ {S U L : Type 0} where
  -- The attempt to listen, at the time `now`.
  unfoldable pub listen : Network L → ZigbeeTcpServer S U L → ZigbeeTcpServer S U L × Bool
  listen net s = elim net.created [
    | none ↦ (record s { server = none }, false)
    | some l ↦
        if net.nonblocking && (net.bound && net.listens)
        then (publish_sensors (record s { server = some l; started = true }), true)
        else (record s { server = none }, false)
  ]

  unfoldable pub start : Network L → ℕ → ZigbeeTcpServer S U L → ZigbeeTcpServer S U L × Bool
  unfolding listen
  start net now s =
      if s.started
      then (s, true)
      else if not net.is_connected
      then (s, false)
      else if not (s.last_start_attempt_ms == 0) && ltb (elapsed now s.last_start_attempt_ms) 5000
      then (s, false)
      else listen net (record s { last_start_attempt_ms = now })

module _ {S U L : Type 0} (sockets : Socket S) (uart : UartComponent U) (listener : Listener L S)
    (does : ParentCall → U → U) where
  -- The steps of `loop`, in its order.
  unfoldable pub serve_pending : ZigbeeTcpServer S U L → ZigbeeTcpServer S U L
  unfolding close_pending
  serve_pending s =
      if not (connected s.pending)
      then s
      else let (client, open_still) = collect_prebuffer sockets s.pending in
        let t = record s { pending = client } in
        if open_still
        then t
        else let u = close_pending false t in record u { state = disconnect_pending u.state }

  unfoldable pub serve_provisional : ZigbeeTcpServer S U L → ZigbeeTcpServer S U L
  serve_provisional s =
      if not (connected s.active) || not (is_provisional s.state.active)
      then s
      else let (client, open_still) = collect_prebuffer sockets s.active in
        let t = record s { active = client } in
        if open_still
        then classify_active sockets uart listener does t
        else handle_active_disconnect uart does t

  unfoldable pub serve_session : ZigbeeTcpServer S U L → Option (ZigbeeTcpServer S U L)
  unfolding pump_active
  serve_session s =
      if connected s.active && (is_normal s.state.active || is_maintenance s.state.active)
      then pump_active sockets uart listener does s
      else some s

  unfoldable pub expire_pending_client : ℕ → ZigbeeTcpServer S U L → ZigbeeTcpServer S U L
  unfolding close_pending
  expire_pending_client now s =
      if connected s.pending && leb s.pending_timeout_ms (elapsed now s.pending.connected_at)
      then (let t = close_pending true s in record t { state = timeout_pending t.state })
      else s

  unfoldable pub expire_rendezvous : ℕ → ZigbeeTcpServer S U L → ZigbeeTcpServer S U L
  unfolding call_parent
  expire_rendezvous now s =
      if not (s.state.bsl_armed && leb s.pending_timeout_ms (elapsed now s.bsl_armed_at))
      then s
      else let (state, radio_was_in_bsl) = expire_bsl_rendezvous s.state in
        let t = record s { state = state } in
        if not (radio_was_in_bsl && s.parent)
        then t
        else let u = call_parent uart does reset_for_remote t in
          call_parent uart does on_tcp_maintenance_finished
            (record u { state = record_recovery_reset u.state })

  unfoldable pub expire_parked_client : ℕ → ZigbeeTcpServer S U L → ZigbeeTcpServer S U L
  unfolding close_parked
  expire_parked_client now s =
      if connected s.parked && leb s.park_timeout_ms (elapsed now s.parked_at)
      then (let t = close_parked true s in record t { state = timeout_parked t.state })
      else s

  unfoldable pub expire_all : ℕ → ZigbeeTcpServer S U L → ZigbeeTcpServer S U L
  expire_all now s = expire_parked_client now (expire_rendezvous now (expire_pending_client now s))

  -- What `loop` does in front of the pump, and behind it.
  unfoldable pub before_pump : ℕ → ZigbeeTcpServer S U L → ZigbeeTcpServer S U L
  before_pump arrived s =
      serve_provisional (serve_pending (accept_clients sockets uart listener does arrived s))

  unfoldable pub behind_pump : ℕ → ZigbeeTcpServer S U L → ZigbeeTcpServer S U L
  behind_pump now s = publish_sensors (expire_all now (drain_parked sockets uart listener does s))

  -- A round that is not left at once.
  unfoldable pub round : ℕ → ℕ → ZigbeeTcpServer S U L → Option (ZigbeeTcpServer S U L)
  round arrived now s = elim (serve_session (before_pump arrived s)) [
    | none ↦ none
    | some t ↦ some (behind_pump now t)
  ]

  unfoldable pub loop : ℕ → ℕ → ZigbeeTcpServer S U L → Option (ZigbeeTcpServer S U L)
  unfolding same_owner
  loop arrived now s =
      if not s.started
      then some s
      else if same_owner s.serial.owner local
      then some s
      else round arrived now s

  unfoldable pub shutdown : ZigbeeTcpServer S U L → ZigbeeTcpServer S U L
  unfolding close_active close_pending close_parked clear_stream_buffers own call_parent
  shutdown s =
      let t =
        clear_stream_buffers (close_parked false (close_active false (close_pending false s))) in
      let u =
        own uart does unowned
          (record t { server = none; started = false; state = state_shutdown t.state }) in
      publish_sensors (
        if is_normal s.state.active
        then call_parent uart does on_tcp_normal_session_finished u
        else u)
