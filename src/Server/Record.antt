-- ===== src/Server/Record.antt =====
-- The members of `ZigbeeTcpServer`, and what it calls on others: its parent, its sensors, and the
-- sockets that it closes.
use mathlib.Core.Option.{Option, none, some, map as option_map}
use Prim.Native.String.{String}
use zigbee_gateway.Common.{
  ℕ, ◌+◌, Bool, true, false, ◌||◌, ◌&&◌, List, ◌∷◌, ◌==◌, ltb, if◌then◌else◌,
}
use zigbee_gateway.Tcp.State.{ZigbeeTcpState, is_maintenance}
use zigbee_gateway.Tcp.Names.{zigbee_tcp_active_state_name, zigbee_tcp_event_name}
use zigbee_gateway.Serial.Owner.{ZigbeeSerialOwner}
use zigbee_gateway.Serial.Uart.{UartComponent}
use zigbee_gateway.Serial.Gate.{ZigbeeSerialInterface, set_owner, drain}
use zigbee_gateway.Stream.Pump.{Buffers, reset}
use zigbee_gateway.Server.Client.{Client, no_client, connected}

-- The methods of the parent, `ZigbeeGatewayComponent`, that the server calls.
pub data ParentCall : Type 0 where
  enter_bsl_for_remote reset_for_remote on_tcp_maintenance_finished : ParentCall
  on_tcp_normal_session_started on_tcp_normal_session_finished : ParentCall

pub data Sensor : Type 0 where
  connected_sensor connection_count_sensor transport_state_sensor pending_socket_sensor : Sensor
  parked_socket_sensor last_event_sensor rejected_connections_sensor pending_timeouts_sensor :
      Sensor
  maintenance_sessions_sensor recovery_resets_sensor : Sensor

pub data Reading : Type 0 where
  flag : Bool → Reading
  number : ℕ → Reading
  text : String → Reading

-- `parent` and `sensors` say which pointers are set. `calls`, `published` and `closed` are the calls
-- made of the parent, the readings given to the sensors and the sockets closed, the newest first,
-- the last with whether the connection was reset. The listener is of the type `L`.
pub record ZigbeeTcpServer (S U L : Type 0) : Type 0 where
  pub parent : Bool
  pub serial : ZigbeeSerialInterface U
  pub pending_timeout_ms : ℕ
  pub park_timeout_ms : ℕ
  pub last_start_attempt_ms : ℕ
  pub started : Bool
  pub server : Option L
  pub active : Client S
  pub pending : Client S
  pub parked : Client S
  pub state : ZigbeeTcpState
  pub bsl_armed_at : ℕ
  pub parked_at : ℕ
  pub stream_pump : Buffers
  pub sensors : Sensor → Bool
  pub last_published_connection_count : ℕ
  pub last_published_state_revision : ℕ
  pub calls : List ParentCall
  pub published : List (Sensor × Reading)
  pub closed : List (S × Bool)

pub data MaintenanceCommand : Type 0 where
  command_bsl command_reset : MaintenanceCommand

-- The socket of a client, with the manner of its end, ahead of those that were closed before.
abbrev pub ended : {S : Type 0} → Option S → Bool → List (S × Bool) → List (S × Bool)
ended none abortive before = before
ended (some sock) abortive before = (sock, abortive) ∷ before

abbrev pub count_of : Bool → ℕ
count_of true = 1
count_of false = 0

module _ {S U L : Type 0} where
  unfoldable pub has_any_client : ZigbeeTcpServer S U L → Bool
  has_any_client s = connected s.active || (connected s.pending || connected s.parked)

  unfoldable pub maintenance_active : ZigbeeTcpServer S U L → Bool
  maintenance_active s = connected s.active && is_maintenance s.state.active

  unfoldable pub connection_count : ZigbeeTcpServer S U L → ℕ
  connection_count s =
      count_of (connected s.active) + count_of (connected s.pending) + count_of (connected s.parked)

  -- `close_client_` on each of the three clients.
  unfoldable pub close_active : Bool → ZigbeeTcpServer S U L → ZigbeeTcpServer S U L
  close_active abortive s = record s {
    active = no_client;
    closed = ended s.active.socket abortive s.closed;
  }

  unfoldable pub close_pending : Bool → ZigbeeTcpServer S U L → ZigbeeTcpServer S U L
  close_pending abortive s = record s {
    pending = no_client;
    closed = ended s.pending.socket abortive s.closed;
  }

  unfoldable pub close_parked : Bool → ZigbeeTcpServer S U L → ZigbeeTcpServer S U L
  close_parked abortive s = record s {
    parked = no_client;
    closed = ended s.parked.socket abortive s.closed;
  }

  unfoldable pub clear_stream_buffers : ZigbeeTcpServer S U L → ZigbeeTcpServer S U L
  clear_stream_buffers s = record s { stream_pump = reset }

  unfoldable pub publish : Sensor → Reading → ZigbeeTcpServer S U L → ZigbeeTcpServer S U L
  publish sensor reading s =
      if s.sensors sensor then record s { published = (sensor, reading) ∷ s.published } else s

  unfoldable pub publish_count : ZigbeeTcpServer S U L → ZigbeeTcpServer S U L
  publish_count s =
      if connection_count s == s.last_published_connection_count
      then s
      else publish connection_count_sensor (number (connection_count s)) (
          publish connected_sensor (flag (ltb 0 (connection_count s)))
            (record s { last_published_connection_count = connection_count s }))

  unfoldable pub publish_state : ZigbeeTcpServer S U L → ZigbeeTcpServer S U L
  publish_state s =
      if s.state.revision == s.last_published_state_revision
      then s
      else publish recovery_resets_sensor (number s.state.counters.recovery_resets) (
          publish maintenance_sessions_sensor (number s.state.counters.maintenance_sessions) (
            publish pending_timeouts_sensor (number s.state.counters.pending_timeouts) (
              publish rejected_connections_sensor (number s.state.counters.rejected_connections) (
                publish last_event_sensor (text (zigbee_tcp_event_name s.state.last_event)) (
                  publish parked_socket_sensor (flag s.state.parked) (
                    publish pending_socket_sensor (flag s.state.pending) (
                      publish transport_state_sensor
                        (text (zigbee_tcp_active_state_name s.state.active))
                        (record s { last_published_state_revision = s.state.revision }))))))))

  -- `publish_sensors_`
  unfoldable pub publish_sensors : ZigbeeTcpServer S U L → ZigbeeTcpServer S U L
  publish_sensors s = publish_state (publish_count s)

module _ {S U L : Type 0} (uart : UartComponent U) (does : ParentCall → U → U) where
  -- A call of the parent, if there is one. What it does to the UART is a parameter; it leaves the
  -- ownership as it was.
  unfoldable pub call_parent : ParentCall → ZigbeeTcpServer S U L → ZigbeeTcpServer S U L
  call_parent c s =
      if s.parent
      then record s {
        calls = c ∷ s.calls;
        serial = record s.serial { uart = option_map (does c) s.serial.uart };
      }
      else s

  -- `serial_->set_owner(owner)` and then `serial_->drain(owner)`.
  unfoldable pub own_and_drain : ZigbeeSerialOwner → ZigbeeTcpServer S U L → ZigbeeTcpServer S U L
  own_and_drain owner s = record s { serial = drain uart (set_owner s.serial owner) owner }

  unfoldable pub own : ZigbeeSerialOwner → ZigbeeTcpServer S U L → ZigbeeTcpServer S U L
  own owner s = record s { serial = set_owner s.serial owner }
