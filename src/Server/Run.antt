-- ===== src/Server/Run.antt =====
-- The server through any calls of its public methods.
use mathlib.Core.Option.{Option, none, some}
use zigbee_gateway.Common.{
  ℕ, ◌≡◌, refl, sym, ◌∙◌, arith, Bool, true, false, not, ◌&&◌, ◌||◌, List, [], ◌∷◌, ◌==◌, length,
  Bool-cases, inl, inr, if◌then◌else◌,
}
use zigbee_gateway.Tcp.State.{is_normal, is_maintenance}
use zigbee_gateway.Serial.Owner.{local, same_owner}
use zigbee_gateway.Serial.Uart.{UartComponent}
use zigbee_gateway.Stream.Pump.{queue_left_to_right, Pumped, is_active}
use zigbee_gateway.Stream.Total.{IsUsable, pump_total, queue_left_to_right-IsUsable}
use zigbee_gateway.Stream.Counting.{
  IsSocket, ReadsAll, socket_endpoint-IsCounted, radio_endpoint-IsCounted,
}
use zigbee_gateway.Stream.Sockets.{Socket, ZigbeeSocketStreamEndpoint, set_socket, socket_endpoint}
use zigbee_gateway.Stream.Adapters.{ZigbeeRadioStreamEndpoint, radio_endpoint}
use zigbee_gateway.Server.Client.{Client, connected, is_some}
use zigbee_gateway.Server.Record.{ZigbeeTcpServer, ParentCall, publish_sensors}
use zigbee_gateway.Server.Handlers.{
  Listener, session_owner, socket_after, serial_after, drop_active, after_pump, pump_session,
  pump_active, request_bsl, request_reset,
}
use zigbee_gateway.Server.Loop.{
  Network, listen, start, behind_pump, serve_session, round, loop, shutdown,
}
use zigbee_gateway.Server.Agreement.{
  Agrees, drop_active-Agrees, request_bsl-Agrees, request_reset-Agrees,
}
use zigbee_gateway.Server.Steps.{
  before_pump-Agrees, behind_pump-Agrees, shutdown-Agrees, same_roles, publish_sensors-Agrees,
}

-- A call of a public method that changes the server, with what the network and the clock give it.
pub data Command (L : Type 0) : Type 0 where
  starts : Network L → ℕ → Command L
  loops : ℕ → ℕ → Command L
  asks_bsl : ℕ → Command L
  asks_reset : ℕ → Command L
  stops : Command L

module _ {S U L : Type 0} where
  listen-Agrees : (net : Network L) (s : ZigbeeTcpServer S U L) → Agrees s → Agrees (listen net s).0
  unfolding listen
  listen-Agrees net s h = by_listener net.created
    where
      by_listener :
          (o : Option L)
          → Agrees
              (elim o as (λ o. ZigbeeTcpServer S U L × Bool) [
                | none ↦ (record s { server = none }, false)
                | some l ↦
                    if net.nonblocking && (net.bound && net.listens)
                    then (publish_sensors (record s { server = some l; started = true }), true)
                    else (record s { server = none }, false)
              ]).0
      by_listener none = same_roles s _ h refl refl refl refl refl
      by_listener (some l) = elim (Bool-cases (net.nonblocking && (net.bound && net.listens))) [
        | inl ready ↦
            rw ready (publish_sensors-Agrees _ (same_roles s _ h refl refl refl refl refl))
        | inr failed ↦ rw failed (same_roles s _ h refl refl refl refl refl)
      ]

  start-Agrees :
      (net : Network L) (now : ℕ) (s : ZigbeeTcpServer S U L)
      → Agrees s
      → Agrees (start net now s).0
  unfolding start
  start-Agrees net now s h = ground (
    arith,
    listen-Agrees net (record s { last_start_attempt_ms = now })
        (same_roles s _ h refl refl refl refl refl),
  )

module _ {S U L : Type 0} (sockets : Socket S) (uart : UartComponent U) (listener : Listener L S)
    (does : ParentCall → U → U) where
  unfoldable pub obey : ZigbeeTcpServer S U L → Command L → Option (ZigbeeTcpServer S U L)
  obey s (starts net now) = some (start net now s).0
  obey s (loops arrived now) = loop sockets uart listener does arrived now s
  obey s (asks_bsl now) = some (request_bsl sockets uart listener does now s)
  obey s (asks_reset now) = some (request_reset sockets uart listener does now s)
  obey s stops = some (shutdown sockets uart listener does s)

  -- `none` if a pump ran out of its fuel.
  unfoldable pub serve : ZigbeeTcpServer S U L → List (Command L) → Option (ZigbeeTcpServer S U L)
  unfolding obey
  serve s [] = some s
  serve s (c ∷ cs) = elim (obey s c) [ none ↦ none | some t ↦ serve t cs ]

  -- A call that returns, with the agreement kept.
  abbrev pub Serves : Option (ZigbeeTcpServer S U L) → Type 0
  Serves o = (t : ZigbeeTcpServer S U L) × (o ≡ some t) × Agrees t

  socket_after-connected :
      (c : Client S) (o : Option S) (b : Bool)
      → connected c ≡ b
      → b ≡ true
      → is_some (socket_after sockets uart listener does c o) ≡ b
  socket_after-connected c none b h k = h
  socket_after-connected c (some sock) b h k = sym k

  after_pump-Agrees :
      (s : ZigbeeTcpServer S U L)
      (out : Pumped (ZigbeeSocketStreamEndpoint S) (ZigbeeRadioStreamEndpoint U))
      → IsUsable out.buffers
      → connected s.active ≡ true
      → Agrees s
      → Agrees (after_pump sockets uart listener does s out)
  unfolding after_pump
  after_pump-Agrees s out usable live h =
      let t = record s {
        active = record s.active {
          socket = socket_after sockets uart listener does s.active out.left.socket;
        };
        serial = serial_after sockets uart listener does s out.right.serial;
        stream_pump = out.buffers;
      } in
      let pumped : Agrees t = record {
        active_socket =
            socket_after-connected s.active out.left.socket _ h.active_socket
              (sym h.active_socket ∙ live);
        pending_socket = h.pending_socket;
        parked_socket = h.parked_socket;
        sound = h.sound;
        buffers = usable;
      } in
      elim (Bool-cases (is_active out.result)) [
        | inl going ↦ rw going pumped
        | inr over ↦ rw over (drop_active-Agrees uart does listener sockets t pumped)
      ]

  module _ (socket_law : IsSocket sockets) (uart_law : ReadsAll uart) where
    pump_session-Serves :
        (s : ZigbeeTcpServer S U L)
        → connected s.active ≡ true
        → Agrees s
        → Serves (pump_session sockets uart listener does s)
    unfolding pump_session
    pump_session-Serves s live h =
        let (out, e, usable) =
          pump_total (socket_endpoint sockets) (radio_endpoint uart)
            (socket_endpoint-IsCounted sockets socket_law) (radio_endpoint-IsCounted uart uart_law)
            (set_socket s.active.socket)
            (record {
              serial = some s.serial;
              owner = session_owner sockets uart listener does s.state;
            })
            s.stream_pump h.buffers in
        rw (e, pump_session)
          (after_pump sockets uart listener does s out, refl, after_pump-Agrees s out usable live h)

    pump_active-Serves :
        (s : ZigbeeTcpServer S U L)
        → connected s.active ≡ true
        → Agrees s
        → Serves (pump_active sockets uart listener does s)
    unfolding pump_active
    pump_active-Serves s live h = elim (Bool-cases (length s.active.prebuffer == 0)) [
      | inl empty ↦ rw (empty, pump_active) (pump_session-Serves s live h)
      | inr some_bytes ↦
          rw (some_bytes, pump_active)
            (elim (Bool-cases (queue_left_to_right (some s.active.prebuffer) s.stream_pump).1) [
              | inr full ↦
                  rw (full, pump_active)
                    (
                      drop_active sockets uart listener does s,
                      refl,
                      drop_active-Agrees uart does listener sockets s h,
                    )
              | inl queued ↦
                  rw (queued, pump_active)
                    (pump_session-Serves _ live (record {
                      active_socket = h.active_socket;
                      pending_socket = h.pending_socket;
                      parked_socket = h.parked_socket;
                      sound = h.sound;
                      buffers =
                          queue_left_to_right-IsUsable s.active.prebuffer s.stream_pump h.buffers;
                    }))
            ])
    ]

    serve_session-Serves :
        (s : ZigbeeTcpServer S U L) → Agrees s → Serves (serve_session sockets uart listener does s)
    unfolding serve_session
    serve_session-Serves s h =
        elim (Bool-cases
          (connected s.active && (is_normal s.state.active || is_maintenance s.state.active))) [
            | inl session ↦ rw (session, serve_session) (pump_active-Serves s (ground arith) h)
            | inr other ↦ rw (other, serve_session) (s, refl, h)
          ]

    round-Serves :
        (arrived now : ℕ) (s : ZigbeeTcpServer S U L)
        → Agrees s
        → Serves (round sockets uart listener does arrived now s)
    unfolding round
    round-Serves arrived now s h =
        let (t, e, k) =
          serve_session-Serves _ (before_pump-Agrees sockets uart listener does arrived s h) in
        rw (e, round)
          (
            behind_pump sockets uart listener does now t,
            refl,
            behind_pump-Agrees sockets uart listener does now t k,
          )

    -- The two early returns.
    guarded-Serves :
        (s : ZigbeeTcpServer S U L) (runs busy : Bool) {o : Option (ZigbeeTcpServer S U L)}
        → Agrees s
        → Serves o
        → Serves (if not runs then some s else if busy then some s else o)
    guarded-Serves s false busy h k = (s, refl, h)
    guarded-Serves s true true h k = (s, refl, h)
    guarded-Serves s true false h k = k

    loop-Serves :
        (arrived now : ℕ) (s : ZigbeeTcpServer S U L)
        → Agrees s
        → Serves (loop sockets uart listener does arrived now s)
    unfolding loop
    loop-Serves arrived now s h =
        guarded-Serves s s.started (same_owner s.serial.owner local) h
          (round-Serves arrived now s h)

    obey-Serves : (s : ZigbeeTcpServer S U L) (c : Command L) → Agrees s → Serves (obey s c)
    unfolding obey
    obey-Serves s (starts net now) h = (_, refl, start-Agrees net now s h)
    obey-Serves s (loops arrived now) h = loop-Serves arrived now s h
    obey-Serves s (asks_bsl now) h =
        (_, refl, request_bsl-Agrees uart does listener sockets now s h)
    obey-Serves s (asks_reset now) h =
        (_, refl, request_reset-Agrees uart does listener sockets now s h)
    obey-Serves s stops h = (_, refl, shutdown-Agrees sockets uart listener does s h)

    -- From a server whose sockets agree with its state, any calls of the public methods return, and
    -- the sockets agree again: there is an active socket exactly if the state is not idle, a pending
    -- and a parked one exactly if the state says so, the state is sound, and the pump's buffers are
    -- usable.
    pub serve-Agrees :
        (s : ZigbeeTcpServer S U L) (cs : List (Command L))
        → Agrees s
        → (t : ZigbeeTcpServer S U L) × (serve s cs ≡ some t) × Agrees t
    unfolding serve
    serve-Agrees s [] h = (s, refl, h)
    serve-Agrees s (c ∷ cs) h =
        let (t, e, k) = obey-Serves s c h in rw (e, serve) (serve-Agrees t cs k)
