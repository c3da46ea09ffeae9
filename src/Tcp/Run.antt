-- ===== src/Tcp/Run.antt =====
-- The calls that a client can make of `ZigbeeTcpState`, one after another, in any order.
use zigbee_gateway.Common.{Bool, List, [], ◌∷◌}
use zigbee_gateway.Tcp.State.{
  ZigbeeTcpState, initial_state, accept_client, receive_active_payload, request_bsl, request_reset,
  disconnect_active, disconnect_pending, timeout_pending, disconnect_parked, timeout_parked,
  expire_bsl_rendezvous, record_recovery_reset, shutdown,
}

-- A constructor for each public method that mutates the object; the flag is
-- `active_has_received_bytes`.
pub data Call : Type 0 where
  accept : Call
  payload : Call
  bsl : Bool → Call
  reset : Bool → Call
  end_active end_pending expire_pending end_parked expire_parked : Call
  expire_rendezvous recovered stop : Call

unfoldable pub perform : ZigbeeTcpState → Call → ZigbeeTcpState
unfolding accept_client receive_active_payload request_bsl request_reset disconnect_active
    disconnect_pending timeout_pending disconnect_parked timeout_parked expire_bsl_rendezvous
    record_recovery_reset shutdown
perform s accept = (accept_client s).0
perform s payload = (receive_active_payload s).0
perform s (bsl received) = (request_bsl s received).0
perform s (reset received) = (request_reset s received).0
perform s end_active = (disconnect_active s).0
perform s end_pending = disconnect_pending s
perform s expire_pending = timeout_pending s
perform s end_parked = disconnect_parked s
perform s expire_parked = timeout_parked s
perform s expire_rendezvous = (expire_bsl_rendezvous s).0
perform s recovered = record_recovery_reset s
perform s stop = shutdown s

unfoldable pub run : ZigbeeTcpState → List Call → ZigbeeTcpState
run s [] = s
run s (c ∷ cs) = run (perform s c) cs

-- Every state that some calls lead to from the initial one.
unfoldable pub history : List Call → ZigbeeTcpState
history cs = run initial_state cs
