-- ===== src/Server/Handlers.antt =====
-- The handlers of zigbee_tcp_server.cpp: new clients, the first bytes of a client, the pump, the
-- parked client, and the two requests.
use mathlib.Core.Option.{Option, none, some}
use Prim.Native.String.{String}
use zigbee_gateway.Common.{
  ℕ, zero, suc, Bool, true, false, not, ◌||◌, [], ◌==◌, if◌then◌else◌, length,
}
use zigbee_gateway.Tcp.State.{
  ZigbeeTcpState, ZigbeeTcpAcceptAction, activate_provisional, activate_maintenance,
  activate_maintenance_and_enter_bsl, hold_pending, take_over_with_new_client, reject,
  ZigbeeTcpBslAction, arm_and_wait, enter_bsl_and_wait, ZigbeeTcpResetAction, reset_only,
  is_provisional, is_maintenance, accept_client, receive_active_payload,
  request_bsl as state_request_bsl, request_reset as state_request_reset, disconnect_parked,
}
use zigbee_gateway.Tcp.State
use zigbee_gateway.Serial.Owner.{ZigbeeSerialOwner, unowned, tcp_normal, tcp_maintenance}
use zigbee_gateway.Serial.Uart.{UartComponent}
use zigbee_gateway.Serial.Gate.{ZigbeeSerialInterface}
use zigbee_gateway.Stream.Pump.{queue_left_to_right, Pumped, is_active, pump}
use zigbee_gateway.Stream.Sockets.{Socket, ZigbeeSocketStreamEndpoint, set_socket, socket_endpoint}
use zigbee_gateway.Stream.Adapters.{ZigbeeRadioStreamEndpoint, radio_endpoint}
use zigbee_gateway.Server.Client.{Client, no_client, connected, discard_loop, loop_io_budget}
use zigbee_gateway.Server.Record.{
  ZigbeeTcpServer, ParentCall, enter_bsl_for_remote, reset_for_remote,
  on_tcp_normal_session_started, command_bsl, command_reset, maintenance_active, close_parked,
  ended, call_parent, own_and_drain, own,
}
use zigbee_gateway.Server.Maintenance.{
  apply_maintenance_command, begin_maintenance_with_active, begin_maintenance_with_pending,
  handle_active_disconnect,
}

-- The listener of ESPHome, a parameter: the connections that it accepts, each with its address as a
-- text, and whether a socket could be made non-blocking.
pub record Listener (L S : Type 0) : Type 0 where
  pub accept : L → Option (S × String) × L
  pub setblocking : S → Bool × S

module _ {S U L : Type 0} (sockets : Socket S) (uart : UartComponent U) (listener : Listener L S)
    (does : ParentCall → U → U) where
  -- `make_client_`: a socket that stays blocking is dropped.
  unfoldable pub make_client : ℕ → S → String → Client S
  make_client now sock address =
      let (configured, sock') = listener.setblocking sock in
      if configured
      then record no_client { socket = some sock'; identifier = address; connected_at = now }
      else no_client

  -- The switch on the action of the state, for a client that is connected.
  unfoldable pub place_client :
      ℕ → Client S → ZigbeeTcpAcceptAction → ZigbeeTcpServer S U L → ZigbeeTcpServer S U L
  unfolding call_parent own_and_drain begin_maintenance_with_pending
  place_client now client activate_provisional s = record s { active = client }
  place_client now client activate_maintenance s =
      own_and_drain uart does tcp_maintenance (record s { active = client })
  place_client now client activate_maintenance_and_enter_bsl s =
      call_parent uart does enter_bsl_for_remote
        (own_and_drain uart does tcp_maintenance (record s { active = client }))
  place_client now client hold_pending s = record s { pending = client }
  place_client now client take_over_with_new_client s =
      begin_maintenance_with_pending uart does now command_bsl (record s { pending = client })
  place_client now client reject s = record s { closed = ended client.socket true s.closed }

  -- The body of the loop, for a socket that was accepted.
  unfoldable pub admit : ℕ → Client S → ZigbeeTcpServer S U L → ZigbeeTcpServer S U L
  unfolding place_client
  admit now client s =
      if not (connected client)
      then s
      else let (state, action) = accept_client s.state in
        place_client now client action (record s { state = state })

  -- What follows an `accept`, if `again` is the rest of the loop.
  abbrev pub after_accept :
      (L → ZigbeeTcpServer S U L → ZigbeeTcpServer S U L)
      → ℕ
      → Option (S × String)
      → L
      → ZigbeeTcpServer S U L
      → ZigbeeTcpServer S U L
  after_accept again now none l s = record s { server = some l }
  after_accept again now (some (sock, address)) l s =
      again l (admit now (make_client now sock address) s)

  -- The loop of `accept_clients_`, over the rounds that are left.
  unfoldable pub accept_loop : ℕ → ℕ → L → ZigbeeTcpServer S U L → ZigbeeTcpServer S U L
  accept_loop zero now l s = record s { server = some l }
  accept_loop (suc rounds) now l s =
      after_accept (accept_loop rounds now) now (listener.accept l).0 (listener.accept l).1 s

  unfoldable pub accept_clients : ℕ → ZigbeeTcpServer S U L → ZigbeeTcpServer S U L
  unfolding accept_loop
  accept_clients now s = elim s.server [ none ↦ s | some l ↦ accept_loop 4 now l s ]

  unfoldable pub classify_active : ZigbeeTcpServer S U L → ZigbeeTcpServer S U L
  unfolding call_parent own_and_drain
  classify_active s =
      if not (connected s.active)
        || (not (is_provisional s.state.active) || length s.active.prebuffer == 0)
      then s
      else let (state, first) = receive_active_payload s.state in
        let t = record s { state = state } in
        if not first
        then t
        else own_and_drain uart does tcp_normal
            (call_parent uart does on_tcp_normal_session_started t)

  abbrev pub session_owner : ZigbeeTcpState → ZigbeeSerialOwner
  session_owner state = if is_maintenance state.active then tcp_maintenance else tcp_normal

  -- `active_.socket.reset()` and then `handle_active_disconnect_`.
  unfoldable pub drop_active : ZigbeeTcpServer S U L → ZigbeeTcpServer S U L
  unfolding handle_active_disconnect
  drop_active s = handle_active_disconnect uart does (record s {
    active = record s.active { socket = none };
    closed = ended s.active.socket false s.closed;
  })

  abbrev pub serial_after :
      ZigbeeTcpServer S U L → Option (ZigbeeSerialInterface U) → ZigbeeSerialInterface U
  serial_after s none = s.serial
  serial_after s (some serial) = serial

  -- The client keeps its socket, which is as the pump leaves it.
  abbrev pub socket_after : Client S → Option S → Option S
  socket_after c none = c.socket
  socket_after c (some sock) = some sock

  -- The server after a pump, which has moved bytes at both ends.
  unfoldable pub after_pump :
      ZigbeeTcpServer S U L
      → Pumped (ZigbeeSocketStreamEndpoint S) (ZigbeeRadioStreamEndpoint U)
      → ZigbeeTcpServer S U L
  unfolding drop_active
  after_pump s out =
      let t = record s {
        active = record s.active { socket = socket_after s.active out.left.socket };
        serial = serial_after s out.right.serial;
        stream_pump = out.buffers;
      } in
      if is_active out.result then t else drop_active t

  -- The second part of `pump_active_`. The pump is none if its fuel ran out.
  unfoldable pub pump_session : ZigbeeTcpServer S U L → Option (ZigbeeTcpServer S U L)
  unfolding after_pump
  pump_session s =
      elim (pump (socket_endpoint sockets) (radio_endpoint uart) true (set_socket s.active.socket)
        (record { serial = some s.serial; owner = session_owner s.state }) s.stream_pump) [
          | none ↦ none
          | some out ↦ some (after_pump s out)
        ]

  unfoldable pub pump_active : ZigbeeTcpServer S U L → Option (ZigbeeTcpServer S U L)
  unfolding pump_session drop_active
  pump_active s =
      if length s.active.prebuffer == 0
      then pump_session s
      else let (buffers, queued) = queue_left_to_right (some s.active.prebuffer) s.stream_pump in
        if not queued
        then some (drop_active s)
        else pump_session
            (record s { stream_pump = buffers; active = record s.active { prebuffer = [] } })

  -- What `drain_parked_` makes of the client and the outcome of its loop.
  abbrev pub drain_step : ZigbeeTcpServer S U L → Client S × Bool → ZigbeeTcpServer S U L
  drain_step s (client, open_still) =
      let t = record s { parked = client } in
      if open_still
      then t
      else let u = close_parked false t in record u { state = disconnect_parked u.state }

  unfoldable pub drain_parked : ZigbeeTcpServer S U L → ZigbeeTcpServer S U L
  unfolding close_parked
  drain_parked s = elim s.parked.socket [
    | none ↦ s
    | some sock ↦ drain_step s (discard_loop sockets loop_io_budget loop_io_budget s.parked sock)
  ]

  unfoldable pub start_bsl_rendezvous_timer : ℕ → ZigbeeTcpServer S U L → ZigbeeTcpServer S U L
  start_bsl_rendezvous_timer now s = record s { bsl_armed_at = now }

  -- The switch on the action; the flag is `already_maintenance`.
  unfoldable pub apply_bsl :
      ℕ → Bool → ZigbeeTcpBslAction → ZigbeeTcpServer S U L → ZigbeeTcpServer S U L
  unfolding apply_maintenance_command begin_maintenance_with_active begin_maintenance_with_pending
      start_bsl_rendezvous_timer call_parent own
  apply_bsl now already State.ZigbeeTcpBslAction.apply_to_active s =
      if already
      then apply_maintenance_command uart does command_bsl s
      else begin_maintenance_with_active uart does command_bsl s
  apply_bsl now already State.ZigbeeTcpBslAction.take_over_with_pending s =
      begin_maintenance_with_pending uart does now command_bsl s
  apply_bsl now already arm_and_wait s = start_bsl_rendezvous_timer now s
  apply_bsl now already enter_bsl_and_wait s =
      start_bsl_rendezvous_timer now
        (call_parent uart does enter_bsl_for_remote (own uart does unowned s))

  unfoldable pub request_bsl : ℕ → ZigbeeTcpServer S U L → ZigbeeTcpServer S U L
  unfolding apply_bsl maintenance_active
  request_bsl now s =
      if not s.started
      then s
      else let (state, action) = state_request_bsl s.state (not (s.active.bytes_received == 0)) in
        apply_bsl now (maintenance_active s) action (record s { state = state })

  unfoldable pub apply_reset :
      ℕ → Bool → ZigbeeTcpResetAction → ZigbeeTcpServer S U L → ZigbeeTcpServer S U L
  unfolding apply_maintenance_command begin_maintenance_with_active begin_maintenance_with_pending
      call_parent
  apply_reset now already State.ZigbeeTcpResetAction.apply_to_active s =
      if already
      then apply_maintenance_command uart does command_reset s
      else begin_maintenance_with_active uart does command_reset s
  apply_reset now already State.ZigbeeTcpResetAction.take_over_with_pending s =
      begin_maintenance_with_pending uart does now command_reset s
  apply_reset now already reset_only s = call_parent uart does reset_for_remote s

  unfoldable pub request_reset : ℕ → ZigbeeTcpServer S U L → ZigbeeTcpServer S U L
  unfolding apply_reset maintenance_active call_parent
  request_reset now s =
      if not s.started
      then call_parent uart does reset_for_remote s
      else let (state, action) = state_request_reset s.state (not (s.active.bytes_received == 0)) in
        apply_reset now (maintenance_active s) action (record s { state = state })
