-- ===== src/Server/Agreement.antt =====
-- The sockets that the server holds agree with the roles in its state.
use zigbee_gateway.Common.{ℕ, ◌≡◌, ap, ◌∙◌, arith, Bool, true, false, not, ◌==◌}
use zigbee_gateway.Tcp.State.{
  ZigbeeTcpState, is_idle, accept_client, receive_active_payload, request_bsl as state_request_bsl,
  request_reset as state_request_reset, disconnect_active,
}
use zigbee_gateway.Tcp.Run.{accept, payload, bsl, reset, end_active, recovered, perform}
use zigbee_gateway.Tcp.Valid.{IsSound, perform-IsSound}
use zigbee_gateway.Serial.Uart.{UartComponent}
use zigbee_gateway.Stream.Pump.{reset as reset_pump}
use zigbee_gateway.Stream.Total.{IsUsable, reset-IsUsable}
use zigbee_gateway.Stream.Sockets.{Socket}
use zigbee_gateway.Server.Client.{Client, connected}
use zigbee_gateway.Server.Record.{ZigbeeTcpServer, ParentCall}
use zigbee_gateway.Server.Maintenance.{
  released, handle_active_disconnect, after_disconnect, finish_maintenance_session,
  promote_pending_after_normal_disconnect,
}
use zigbee_gateway.Server.Handlers.{
  Listener, admit, classify_active, drop_active, request_bsl, request_reset,
}

pub record Agrees {S U L : Type 0} (s : ZigbeeTcpServer S U L) : Type 0 where
  pub active_socket : connected s.active ≡ not (is_idle s.state.active)
  pub pending_socket : connected s.pending ≡ s.state.pending
  pub parked_socket : connected s.parked ≡ s.state.parked
  pub sound : IsSound s.state
  pub buffers : IsUsable s.stream_pump

module _ {S U L : Type 0} (uart : UartComponent U) (does : ParentCall → U → U) where
  finish-Agrees :
      (r : Bool) (s : ZigbeeTcpServer S U L)
      → connected s.active ≡ not (is_idle s.state.active)
      → connected s.pending ≡ s.state.pending
      → s.state.parked ≡ false
      → IsSound s.state
      → IsUsable s.stream_pump
      → Agrees (finish_maintenance_session uart does r s)
  unfolding finish_maintenance_session perform
  finish-Agrees r s a p q v b = ground (arith, perform-IsSound s.state recovered v)

  promote-Agrees :
      (s : ZigbeeTcpServer S U L)
      → not (is_idle s.state.active) ≡ true
      → connected s.pending ≡ true
      → s.state.pending ≡ false
      → connected s.parked ≡ s.state.parked
      → IsSound s.state
      → IsUsable s.stream_pump
      → Agrees (promote_pending_after_normal_disconnect uart does s)
  unfolding promote_pending_after_normal_disconnect
  promote-Agrees s a p n q v b = ground arith

  released_fields :
      (state : ZigbeeTcpState) (s : ZigbeeTcpServer S U L)
      → let t = released uart does state s in
        (connected t.active ≡ false)
        × (t.pending ≡ s.pending)
        × (t.parked ≡ s.parked)
        × (t.state ≡ state)
        × (t.stream_pump ≡ reset_pump)
  unfolding released
  released_fields state s = ground arith

  -- What is to hold of a server, and of the result of the state's disconnect, for the last step.
  after_disconnect-Agrees :
      (a : ZigbeeTcpState) (s : ZigbeeTcpServer S U L)
      → IsSound a
      → connected s.active ≡ false
      → connected s.pending ≡ a.pending
      → connected s.parked ≡ a.parked
      → s.state ≡ (disconnect_active a).0
      → IsUsable s.stream_pump
      → Agrees (after_disconnect uart does (disconnect_active a).1 (disconnect_active a).1.action s)
  unfolding disconnect_active after_disconnect perform
  after_disconnect-Agrees a s v k p q e b = ground (
    arith,
    perform-IsSound a end_active v,
    finish-Agrees (disconnect_active a).1.recover_radio s,
    promote-Agrees s,
  )

  pub handle_active_disconnect-Agrees :
      (s : ZigbeeTcpServer S U L)
      → connected s.pending ≡ s.state.pending
      → connected s.parked ≡ s.state.parked
      → IsSound s.state
      → Agrees (handle_active_disconnect uart does s)
  unfolding handle_active_disconnect
  handle_active_disconnect-Agrees s p q v =
      let f = released_fields (disconnect_active s.state).0 s in
      after_disconnect-Agrees s.state (released uart does (disconnect_active s.state).0 s) v f.0
        (ap (λ (c : Client S). connected c) f.1 ∙ p) (ap (λ (c : Client S). connected c) f.2 ∙ q)
        f.3 (rw f.4 reset-IsUsable)

  pub admit-Agrees :
      (listener : Listener L S) (sockets : Socket S) (now : ℕ) (c : Client S)
      (s : ZigbeeTcpServer S U L)
      → Agrees s
      → Agrees (admit sockets uart listener does now c s)
  unfolding admit accept_client perform
  admit-Agrees listener sockets now c s h =
      ground (arith, perform-IsSound s.state accept h.sound, reset-IsUsable)

  pub request_bsl-Agrees :
      (listener : Listener L S) (sockets : Socket S) (now : ℕ) (s : ZigbeeTcpServer S U L)
      → Agrees s
      → Agrees (request_bsl sockets uart listener does now s)
  unfolding request_bsl state_request_bsl perform
  request_bsl-Agrees listener sockets now s h = ground (
    arith,
    perform-IsSound s.state (bsl (not (s.active.bytes_received == 0))) h.sound,
    reset-IsUsable,
  )

  pub request_reset-Agrees :
      (listener : Listener L S) (sockets : Socket S) (now : ℕ) (s : ZigbeeTcpServer S U L)
      → Agrees s
      → Agrees (request_reset sockets uart listener does now s)
  unfolding request_reset state_request_reset perform
  request_reset-Agrees listener sockets now s h = ground (
    arith,
    perform-IsSound s.state (reset (not (s.active.bytes_received == 0))) h.sound,
    reset-IsUsable,
  )

  pub classify_active-Agrees :
      (listener : Listener L S) (sockets : Socket S) (s : ZigbeeTcpServer S U L)
      → Agrees s
      → Agrees (classify_active sockets uart listener does s)
  unfolding classify_active receive_active_payload perform
  classify_active-Agrees listener sockets s h =
      ground (arith, perform-IsSound s.state payload h.sound, reset-IsUsable)

  pub drop_active-Agrees :
      (listener : Listener L S) (sockets : Socket S) (s : ZigbeeTcpServer S U L)
      → Agrees s
      → Agrees (drop_active sockets uart listener does s)
  unfolding drop_active
  drop_active-Agrees listener sockets s h =
      handle_active_disconnect-Agrees _ h.pending_socket h.parked_socket h.sound
