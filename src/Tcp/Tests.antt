-- ===== src/Tcp/Tests.antt =====
-- The transport policy at concrete calls.
use zigbee_gateway.Common.{◌≡◌, ◌↔◌, ◌⊎◌, refl, true, false, List, [], ◌∷◌, u32}
use zigbee_gateway.Tcp.State.{
  idle, maintenance, reject, initial_state, accept_client, request_bsl, disconnect_active, valid,
  record_event,
}
use zigbee_gateway.Tcp.Run.{Call, accept, payload, bsl, perform, run, history}
use zigbee_gateway.Tcp.Valid.{history-valid, history-IsSound}
use zigbee_gateway.Tcp.Rendezvous.{
  accept_client-request_bsl, accept_client-reject_iff, disconnect_active-recover,
}
use zigbee_gateway.Tcp.Accounts.{
  tally, turns_away, times_out, opens_maintenance, recovers, is_event, history-counters,
}

-- A client sends, another asks for the bootloader, a second one comes and a third is turned away.
abbrev calls : List Call
calls = accept ∷ payload ∷ bsl true ∷ accept ∷ accept ∷ []

calls_end : ((history calls).active ≡ maintenance) × ((history calls).parked ≡ true)
unfolding history run perform accept_client request_bsl record_event
calls_end = (refl, refl)

history-valid_example :
    (valid (history calls) ≡ true)
    × (((history calls).bsl_entered ≡ false)
        ⊎ ((history calls).active ≡ maintenance)
        ⊎ (((history calls).active ≡ idle) × ((history calls).bsl_armed ≡ true)))
history-valid_example = history-valid calls

accept_client-request_bsl_example :
    let t = (accept_client (request_bsl (history calls) true).0).0 in
    (t.active ≡ maintenance) × (t.bsl_entered ≡ true) × (t.bsl_armed ≡ false)
accept_client-request_bsl_example = accept_client-request_bsl (history calls) true

accept_client-reject_iff_example :
    ((accept_client (history calls)).1 ≡ reject)
    ↔ (((history calls).pending ≡ true) ⊎ ((history calls).active ≡ maintenance))
accept_client-reject_iff_example = accept_client-reject_iff (history calls) (history-IsSound calls)

disconnect_active-recover_example :
    ((disconnect_active (history calls)).1.recover_radio ≡ true)
    ↔ (((history calls).active ≡ maintenance) × ((history calls).bsl_entered ≡ true))
disconnect_active-recover_example =
    disconnect_active-recover (history calls) (history-IsSound calls)

history-counters_example :
    ((history calls).counters.rejected_connections ≡ u32 (tally turns_away initial_state calls))
    × ((history calls).counters.pending_timeouts ≡ u32 (tally times_out initial_state calls))
    × ((history calls).counters.maintenance_sessions
        ≡ u32 (tally opens_maintenance initial_state calls))
    × ((history calls).counters.recovery_resets ≡ u32 (tally recovers initial_state calls))
    × ((history calls).revision ≡ u32 (tally is_event initial_state calls))
history-counters_example = history-counters calls
