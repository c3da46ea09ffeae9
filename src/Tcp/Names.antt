-- ===== src/Tcp/Names.antt =====
-- The names that zigbee_tcp_state.h gives to states and events.
use Prim.Native.String.{String}
use zigbee_gateway.Tcp.State.{
  ZigbeeTcpActiveState, idle, provisional, normal, maintenance, ZigbeeTcpEvent, initialized,
  provisional_client_connected, normal_session_started, pending_client_connected,
  connection_rejected, pending_client_disconnected, pending_client_timed_out,
  pending_client_promoted, bsl_rendezvous_armed, maintenance_session_started, radio_reset_requested,
  normal_session_ended, maintenance_session_finished, bsl_rendezvous_timed_out,
  parked_client_disconnected, parked_client_timed_out, recovery_reset, server_shutdown,
  bsl_entered_event, provisional_client_disconnected,
}

unfoldable pub zigbee_tcp_active_state_name : ZigbeeTcpActiveState → String
zigbee_tcp_active_state_name idle = "idle"
zigbee_tcp_active_state_name provisional = "provisional"
zigbee_tcp_active_state_name normal = "normal"
zigbee_tcp_active_state_name maintenance = "maintenance"

unfoldable pub zigbee_tcp_event_name : ZigbeeTcpEvent → String
zigbee_tcp_event_name initialized = "Initialized"
zigbee_tcp_event_name provisional_client_connected = "Provisional Client Connected"
zigbee_tcp_event_name normal_session_started = "Normal Session Started"
zigbee_tcp_event_name pending_client_connected = "Pending Client Connected"
zigbee_tcp_event_name connection_rejected = "Connection Rejected"
zigbee_tcp_event_name pending_client_disconnected = "Pending Client Disconnected"
zigbee_tcp_event_name pending_client_timed_out = "Pending Client Timed Out"
zigbee_tcp_event_name pending_client_promoted = "Pending Client Promoted"
zigbee_tcp_event_name bsl_rendezvous_armed = "BSL Rendezvous Armed"
zigbee_tcp_event_name maintenance_session_started = "Maintenance Session Started"
zigbee_tcp_event_name radio_reset_requested = "Radio Reset Requested"
zigbee_tcp_event_name normal_session_ended = "Normal Session Ended"
zigbee_tcp_event_name maintenance_session_finished = "Maintenance Session Finished"
zigbee_tcp_event_name bsl_rendezvous_timed_out = "BSL Rendezvous Timed Out"
zigbee_tcp_event_name parked_client_disconnected = "Parked Client Disconnected"
zigbee_tcp_event_name parked_client_timed_out = "Parked Client Timed Out"
zigbee_tcp_event_name recovery_reset = "Recovery Reset"
zigbee_tcp_event_name server_shutdown = "Server Shutdown"
zigbee_tcp_event_name bsl_entered_event = "BSL Entered"
zigbee_tcp_event_name provisional_client_disconnected = "Provisional Client Disconnected"
