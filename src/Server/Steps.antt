-- ===== src/Server/Steps.antt =====
-- Every step of the server's loop keeps the agreement of its sockets with its state.
use mathlib.Core.Option.{Option, none, some}
use zigbee_gateway.Common.{
  ℕ, zero, suc, ◌≡◌, refl, arith, Bool, true, false, not, ◌||◌, List, ◌==◌, Bool-cases, inl, inr,
  min,
}
use zigbee_gateway.Tcp.State.{
  is_provisional, timeout_pending, timeout_parked, expire_bsl_rendezvous,
}
use zigbee_gateway.Tcp.Run.{
  end_pending, expire_pending, end_parked, expire_parked, expire_rendezvous as state_expires,
  recovered, stop, perform,
}
use zigbee_gateway.Tcp.Valid.{perform-IsSound}
use Prim.Native.String.{String}
use zigbee_gateway.Stream.Pump.{sub_size}
use zigbee_gateway.Serial.Uart.{UartComponent}
use zigbee_gateway.Stream.Total.{reset-IsUsable}
use zigbee_gateway.Stream.Sockets.{SocketResult, moved, errno, Socket}
use zigbee_gateway.Server.Client.{
  Client, connected, collect_loop, collect_prebuffer, discard_loop, loop_io_budget, io_chunk_size,
  after_receive, after_discard, received, discarded, wanted,
}
use zigbee_gateway.Server.Record.{
  ZigbeeTcpServer, ParentCall, Sensor, Reading, connection_count, publish, publish_count,
  publish_state, publish_sensors,
}
use zigbee_gateway.Server.Handlers.{
  Listener, after_accept, accept_loop, accept_clients, drain_step, drain_parked,
}
use zigbee_gateway.Server.Loop.{
  serve_pending, serve_provisional, expire_pending_client, expire_rendezvous, expire_parked_client,
  expire_all, before_pump, behind_pump, shutdown,
}
use zigbee_gateway.Server.Agreement.{
  Agrees, admit-Agrees, classify_active-Agrees, handle_active_disconnect-Agrees,
}

module _ {S : Type 0} (sockets : Socket S) where
  -- A client that is read from stays connected.
  after_receive-connected :
      (again : ℕ → Client S → S → Client S × Bool) (budget : ℕ) (c : Client S) (r : SocketResult)
      (bytes : List ℕ) (s : S)
      → ((n : ℕ) (d : Client S) (t : S) → connected d ≡ true → connected (again n d t).0 ≡ true)
      → connected (after_receive sockets again budget c r bytes s).0 ≡ true
  after_receive-connected again budget c (moved zero) bytes s h = refl
  after_receive-connected again budget c (moved (suc n)) bytes s h =
      h (sub_size budget (suc n)) (received sockets c (suc n) bytes s) s refl
  after_receive-connected again budget c (errno code) bytes s h = refl

  collect_loop-connected :
      (fuel budget : ℕ) (c : Client S) (s : S)
      → connected c ≡ true
      → connected (collect_loop sockets fuel budget c s).0 ≡ true
  unfolding collect_loop
  collect_loop-connected zero budget c s h = h
  collect_loop-connected (suc fuel) budget c s h =
      let r = sockets.read s (wanted sockets c budget) in
      ground (
        arith,
        after_receive-connected (collect_loop sockets fuel) budget c r.0 r.1 r.2
            (collect_loop-connected fuel),
      )

  after_discard-connected :
      (again : ℕ → Client S → S → Client S × Bool) (budget : ℕ) (c : Client S) (r : SocketResult)
      (s : S)
      → ((n : ℕ) (d : Client S) (t : S) → connected d ≡ true → connected (again n d t).0 ≡ true)
      → connected (after_discard sockets again budget c r s).0 ≡ true
  after_discard-connected again budget c (moved zero) s h = refl
  after_discard-connected again budget c (moved (suc n)) s h =
      h (sub_size budget (suc n)) (discarded sockets c (suc n) s) s refl
  after_discard-connected again budget c (errno code) s h = refl

  discard_loop-connected :
      (fuel budget : ℕ) (c : Client S) (s : S)
      → connected c ≡ true
      → connected (discard_loop sockets fuel budget c s).0 ≡ true
  unfolding discard_loop
  discard_loop-connected zero budget c s h = h
  discard_loop-connected (suc fuel) budget c s h =
      let r = sockets.read s (min io_chunk_size budget) in
      ground (
        arith,
        after_discard-connected (discard_loop sockets fuel) budget c r.0 r.2
            (discard_loop-connected fuel),
      )

  collect_prebuffer-connected :
      (c : Client S) → connected c ≡ true → connected (collect_prebuffer sockets c).0 ≡ true
  unfolding collect_prebuffer
  collect_prebuffer-connected c h = by_socket c.socket
    where
      by_socket :
          (o : Option S)
          → connected
              (elim o as (λ o. Client S × Bool) [
                | none ↦ (c, false)
                | some sock ↦ collect_loop sockets loop_io_budget loop_io_budget c sock
              ]).0
            ≡ true
      by_socket none = h
      by_socket (some sock) = collect_loop-connected loop_io_budget loop_io_budget c sock h

module _ {S U L : Type 0} where
  -- The agreement is about four members.
  pub same_roles :
      (s t : ZigbeeTcpServer S U L)
      → Agrees s
      → t.active ≡ s.active
      → t.pending ≡ s.pending
      → t.parked ≡ s.parked
      → t.state ≡ s.state
      → t.stream_pump ≡ s.stream_pump
      → Agrees t
  same_roles s t h a p q e b = record {
    active_socket = rw (a, e) h.active_socket;
    pending_socket = rw (p, e) h.pending_socket;
    parked_socket = rw (q, e) h.parked_socket;
    sound = rw e h.sound;
    buffers = rw b h.buffers;
  }

  publish-Agrees :
      (x : Sensor) (r : Reading) (s : ZigbeeTcpServer S U L) → Agrees s → Agrees (publish x r s)
  unfolding publish
  publish-Agrees x r s h = ground arith

  publish_count-Agrees : (s : ZigbeeTcpServer S U L) → Agrees s → Agrees (publish_count s)
  unfolding publish_count
  publish_count-Agrees s h =
      elim (Bool-cases (connection_count s == s.last_published_connection_count)) [
        | inl same ↦ rw same h
        | inr new ↦ rw new (
            publish-Agrees _ _ _ (publish-Agrees _ _ _ (same_roles s _ h refl refl refl refl refl)))
      ]

  publish_state-Agrees : (s : ZigbeeTcpServer S U L) → Agrees s → Agrees (publish_state s)
  unfolding publish_state
  publish_state-Agrees s h =
      elim (Bool-cases (s.state.revision == s.last_published_state_revision)) [
        | inl same ↦ rw same h
        | inr new ↦ rw new (
            publish-Agrees _ _ _ (
              publish-Agrees _ _ _ (
                publish-Agrees _ _ _ (
                  publish-Agrees _ _ _ (
                    publish-Agrees _ _ _ (
                      publish-Agrees _ _ _ (
                        publish-Agrees _ _ _
                          (publish-Agrees _ _ _ (same_roles s _ h refl refl refl refl refl)))))))))
      ]

  pub publish_sensors-Agrees : (s : ZigbeeTcpServer S U L) → Agrees s → Agrees (publish_sensors s)
  unfolding publish_sensors
  publish_sensors-Agrees s h = publish_state-Agrees _ (publish_count-Agrees s h)

module _ {S U L : Type 0} (sockets : Socket S) (uart : UartComponent U) (listener : Listener L S)
    (does : ParentCall → U → U) where
  after_accept-Agrees :
      (again : L → ZigbeeTcpServer S U L → ZigbeeTcpServer S U L) (now : ℕ)
      (o : Option (S × String)) (l : L) (s : ZigbeeTcpServer S U L)
      → ((k : L) (t : ZigbeeTcpServer S U L) → Agrees t → Agrees (again k t))
      → Agrees s
      → Agrees (after_accept sockets uart listener does again now o l s)
  after_accept-Agrees again now none l s k h = same_roles s _ h refl refl refl refl refl
  after_accept-Agrees again now (some (sock, address)) l s k h =
      k l _ (admit-Agrees uart does listener sockets now _ s h)

  accept_loop-Agrees :
      (rounds now : ℕ) (l : L) (s : ZigbeeTcpServer S U L)
      → Agrees s
      → Agrees (accept_loop sockets uart listener does rounds now l s)
  unfolding accept_loop
  accept_loop-Agrees zero now l s h = same_roles s _ h refl refl refl refl refl
  accept_loop-Agrees (suc rounds) now l s h =
      after_accept-Agrees (accept_loop sockets uart listener does rounds now) now
        (listener.accept l).0 (listener.accept l).1 s (accept_loop-Agrees rounds now) h

  accept_clients-Agrees :
      (now : ℕ) (s : ZigbeeTcpServer S U L)
      → Agrees s
      → Agrees (accept_clients sockets uart listener does now s)
  unfolding accept_clients
  accept_clients-Agrees now s h = by_listener s.server
    where
      by_listener :
          (o : Option L)
          → Agrees (elim o [ none ↦ s | some l ↦ accept_loop sockets uart listener does 4 now l s ])
      by_listener none = h
      by_listener (some l) = accept_loop-Agrees 4 now l s h

  serve_pending-Agrees :
      (s : ZigbeeTcpServer S U L) → Agrees s → Agrees (serve_pending sockets uart listener does s)
  unfolding serve_pending perform
  serve_pending-Agrees s h = ground (
    arith,
    collect_prebuffer-connected sockets s.pending,
    perform-IsSound s.state end_pending h.sound,
  )

  serve_provisional-Agrees :
      (s : ZigbeeTcpServer S U L)
      → Agrees s
      → Agrees (serve_provisional sockets uart listener does s)
  unfolding serve_provisional
  serve_provisional-Agrees s h =
      elim (Bool-cases (not (connected s.active) || not (is_provisional s.state.active))) [
        | inl other ↦ rw other h
        | inr held ↦ rw held (elim (Bool-cases (collect_prebuffer sockets s.active).1) [
          | inl more ↦ rw more (
              classify_active-Agrees uart does listener sockets _
                (ground (arith, collect_prebuffer-connected sockets s.active)))
          | inr over ↦
              rw over (
                handle_active_disconnect-Agrees uart does _ h.pending_socket h.parked_socket
                  h.sound)
        ])
      ]

  drain_parked-Agrees :
      (s : ZigbeeTcpServer S U L) → Agrees s → Agrees (drain_parked sockets uart listener does s)
  unfolding drain_parked perform
  drain_parked-Agrees s h = by_socket s.parked.socket refl
    where
      by_socket :
          (o : Option S)
          → s.parked.socket ≡ o
          → Agrees (elim o as (λ o. ZigbeeTcpServer S U L) [
            | none ↦ s
            | some sock ↦
                drain_step sockets uart listener does s
                  (discard_loop sockets loop_io_budget loop_io_budget s.parked sock)
          ])
      by_socket none e = h
      by_socket (some sock) e = ground (
        arith,
        discard_loop-connected sockets loop_io_budget loop_io_budget s.parked sock,
        perform-IsSound s.state end_parked h.sound,
      )

  expire_pending_client-Agrees :
      (now : ℕ) (s : ZigbeeTcpServer S U L)
      → Agrees s
      → Agrees (expire_pending_client sockets uart listener does now s)
  unfolding expire_pending_client timeout_pending perform
  expire_pending_client-Agrees now s h =
      ground (arith, perform-IsSound s.state expire_pending h.sound)

  expire_rendezvous-Agrees :
      (now : ℕ) (s : ZigbeeTcpServer S U L)
      → Agrees s
      → Agrees (expire_rendezvous sockets uart listener does now s)
  unfolding expire_rendezvous expire_bsl_rendezvous perform
  expire_rendezvous-Agrees now s h = ground (
    arith,
    perform-IsSound s.state state_expires h.sound,
    perform-IsSound (perform s.state state_expires) recovered,
  )

  expire_parked_client-Agrees :
      (now : ℕ) (s : ZigbeeTcpServer S U L)
      → Agrees s
      → Agrees (expire_parked_client sockets uart listener does now s)
  unfolding expire_parked_client timeout_parked perform
  expire_parked_client-Agrees now s h =
      ground (arith, perform-IsSound s.state expire_parked h.sound)

  pub shutdown-Agrees :
      (s : ZigbeeTcpServer S U L) → Agrees s → Agrees (shutdown sockets uart listener does s)
  unfolding shutdown perform
  shutdown-Agrees s h =
      publish_sensors-Agrees _
        (ground (arith, perform-IsSound s.state stop h.sound, reset-IsUsable))

  pub before_pump-Agrees :
      (now : ℕ) (s : ZigbeeTcpServer S U L)
      → Agrees s
      → Agrees (before_pump sockets uart listener does now s)
  unfolding before_pump
  before_pump-Agrees now s h =
      serve_provisional-Agrees _ (serve_pending-Agrees _ (accept_clients-Agrees now s h))

  pub behind_pump-Agrees :
      (now : ℕ) (s : ZigbeeTcpServer S U L)
      → Agrees s
      → Agrees (behind_pump sockets uart listener does now s)
  unfolding behind_pump expire_all
  behind_pump-Agrees now s h = publish_sensors-Agrees _ (
      expire_parked_client-Agrees now _ (
        expire_rendezvous-Agrees now _
          (expire_pending_client-Agrees now _ (drain_parked-Agrees s h))))
