-- ===== src/Server/Maintenance.antt =====
-- How a maintenance session of zigbee_tcp_server.cpp begins and ends, and the end of the active
-- client.
use zigbee_gateway.Common.{ℕ, Bool, true, false, not, if◌then◌else◌}
use zigbee_gateway.Tcp.State.{
  ZigbeeTcpState, ZigbeeTcpDisconnectAction, ZigbeeTcpDisconnectResult, normal_ended,
  promote_pending, finish_maintenance, provisional_ended, is_normal, disconnect_active,
  record_recovery_reset,
}
use zigbee_gateway.Serial.Owner.{unowned, tcp_maintenance}
use zigbee_gateway.Serial.Uart.{UartComponent}
use zigbee_gateway.Server.Client.{no_client, connected}
use zigbee_gateway.Server.Record.{
  ZigbeeTcpServer, ParentCall, enter_bsl_for_remote, reset_for_remote, on_tcp_maintenance_finished,
  on_tcp_normal_session_finished, MaintenanceCommand, command_bsl, command_reset, close_active,
  close_parked, clear_stream_buffers, call_parent, own_and_drain, own,
}

module _ {S U L : Type 0} (uart : UartComponent U) (does : ParentCall → U → U) where
  unfoldable pub apply_maintenance_command :
      MaintenanceCommand → ZigbeeTcpServer S U L → ZigbeeTcpServer S U L
  unfolding call_parent
  apply_maintenance_command command_bsl s = call_parent uart does enter_bsl_for_remote s
  apply_maintenance_command command_reset s = call_parent uart does reset_for_remote s

  unfoldable pub begin_maintenance_with_active :
      MaintenanceCommand → ZigbeeTcpServer S U L → ZigbeeTcpServer S U L
  unfolding apply_maintenance_command clear_stream_buffers own_and_drain
  begin_maintenance_with_active command s =
      if not (connected s.active)
      then s
      else apply_maintenance_command command
          (own_and_drain uart does tcp_maintenance (clear_stream_buffers s))

  -- The active client, if there is one, is parked at the time `now`.
  unfoldable pub park_active : ℕ → ZigbeeTcpServer S U L → ZigbeeTcpServer S U L
  park_active now s =
      if connected s.active
      then record s { parked = s.active; active = no_client; parked_at = now }
      else s

  -- The pending client becomes the active one.
  unfoldable pub take_pending : ZigbeeTcpServer S U L → ZigbeeTcpServer S U L
  take_pending s = record s { active = s.pending; pending = no_client }

  unfoldable pub begin_maintenance_with_pending :
      ℕ → MaintenanceCommand → ZigbeeTcpServer S U L → ZigbeeTcpServer S U L
  unfolding apply_maintenance_command clear_stream_buffers own_and_drain park_active take_pending
  begin_maintenance_with_pending now command s =
      if not (connected s.pending)
      then s
      else apply_maintenance_command command (
          own_and_drain uart does tcp_maintenance
            (take_pending (park_active now (clear_stream_buffers s))))

  unfoldable pub promote_pending_after_normal_disconnect :
      ZigbeeTcpServer S U L → ZigbeeTcpServer S U L
  unfolding take_pending
  promote_pending_after_normal_disconnect s =
      if not (connected s.pending) then s else take_pending s

  -- The recovery reset.
  unfoldable pub recover : Bool → ZigbeeTcpServer S U L → ZigbeeTcpServer S U L
  unfolding call_parent
  recover recover_radio s =
      if not recover_radio
      then s
      else if not s.parent
      then s
      else let t = call_parent uart does reset_for_remote s in
        record t { state = record_recovery_reset t.state }

  unfoldable pub close_parked_if_connected : ZigbeeTcpServer S U L → ZigbeeTcpServer S U L
  unfolding close_parked
  close_parked_if_connected s = if connected s.parked then close_parked true s else s

  unfoldable pub finish_maintenance_session : Bool → ZigbeeTcpServer S U L → ZigbeeTcpServer S U L
  unfolding recover close_parked_if_connected call_parent
  finish_maintenance_session recover_radio s =
      call_parent uart does on_tcp_maintenance_finished
        (close_parked_if_connected (recover recover_radio s))

  -- What follows the end of the active client, by the action of the state.
  unfoldable pub after_disconnect :
      ZigbeeTcpDisconnectResult
      → ZigbeeTcpDisconnectAction
      → ZigbeeTcpServer S U L
      → ZigbeeTcpServer S U L
  after_disconnect result finish_maintenance s = finish_maintenance_session result.recover_radio s
  after_disconnect result promote_pending s = promote_pending_after_normal_disconnect s
  after_disconnect result normal_ended s = s
  after_disconnect result provisional_ended s = s

  -- The part of `handle_active_disconnect_` in front of its last test: the active client is closed,
  -- and nobody owns the UART.
  unfoldable pub released : ZigbeeTcpState → ZigbeeTcpServer S U L → ZigbeeTcpServer S U L
  unfolding close_active clear_stream_buffers own call_parent
  released state s =
      let t =
        own uart does unowned
          (clear_stream_buffers (close_active false (record s { state = state }))) in
      if is_normal s.state.active then call_parent uart does on_tcp_normal_session_finished t else t

  unfoldable pub handle_active_disconnect : ZigbeeTcpServer S U L → ZigbeeTcpServer S U L
  handle_active_disconnect s =
      let (state, result) = disconnect_active s.state in
      after_disconnect result result.action (released state s)
