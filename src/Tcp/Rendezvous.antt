-- ===== src/Tcp/Rendezvous.antt =====
-- What a client obtains by asking for the bootloader, in whichever order it connects and asks.
use zigbee_gateway.Common.{◌≡◌, ◌↔◌, ◌⊎◌, arith, Bool, true, false}
use zigbee_gateway.Tcp.State.{
  ZigbeeTcpState, maintenance, reject, accept_client, request_bsl, disconnect_active,
}
use zigbee_gateway.Tcp.Valid.{IsSound}

-- From every state, a bootloader request and then a connection end in a maintenance session with
-- the bootloader flag set and nothing left armed.
pub accept_client-request_bsl :
    (s : ZigbeeTcpState) (received : Bool)
    → let t = (accept_client (request_bsl s received).0).0 in
      (t.active ≡ maintenance) × (t.bsl_entered ≡ true) × (t.bsl_armed ≡ false)
unfolding accept_client request_bsl
accept_client-request_bsl s received = ground arith

-- In a sound state a client is turned away exactly while another one waits or a maintenance
-- session runs.
pub accept_client-reject_iff :
    (s : ZigbeeTcpState)
    → IsSound s
    → ((accept_client s).1 ≡ reject) ↔ ((s.pending ≡ true) ⊎ (s.active ≡ maintenance))
unfolding accept_client
accept_client-reject_iff s h = ground (arith, h.pending_beside)

-- In a sound state the end of the active client asks for the recovery of the radio exactly if a
-- maintenance session ends with the bootloader flag set.
pub disconnect_active-recover :
    (s : ZigbeeTcpState)
    → IsSound s
    → ((disconnect_active s).1.recover_radio ≡ true)
      ↔ ((s.active ≡ maintenance) × (s.bsl_entered ≡ true))
unfolding disconnect_active
disconnect_active-recover s h = ground arith
