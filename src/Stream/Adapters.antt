-- ===== src/Stream/Adapters.antt =====
-- The endpoints of zigbee_stream_adapters.h: the radio behind the serial interface, a plain UART, and
-- a socket. A null pointer is `none`.
use mathlib.Core.Option.{Option, none, some}
use zigbee_gateway.Common.{
  ℕ, ◌+◌, min, Bool, true, false, not, List, [], ◌==◌, if◌then◌else◌, length,
}
use zigbee_gateway.Stream.Endpoint.{
  io_progress, io_would_block, io_failed, ZigbeeStreamIoResult, ReadReply, WriteReply,
  ZigbeeStreamEndpoint,
}
use zigbee_gateway.Serial.Owner.{ZigbeeSerialOwner, same_owner}
use zigbee_gateway.Serial.Uart.{UartComponent}
use zigbee_gateway.Serial.Gate.{
  ZigbeeSerialInterface, stream_available, stream_read_array, stream_write_array, drain_loop,
}

-- A read that moves nothing.
abbrev pub read_nothing : {E : Type 0} → E → ZigbeeStreamIoResult → ReadReply E
read_nothing e result = record { result = result; bytes = []; endpoint = e }

pub record ZigbeeRadioStreamEndpoint (U : Type 0) : Type 0 where
  pub serial : Option (ZigbeeSerialInterface U)
  pub owner : ZigbeeSerialOwner

module _ {U : Type 0} (ops : UartComponent U) where
  -- What `stream_read_array` returned for `count` bytes.
  abbrev pub radio_read_reply :
      ZigbeeSerialOwner
      → ℕ
      → ZigbeeSerialInterface U × Option (List ℕ)
      → ReadReply (ZigbeeRadioStreamEndpoint U)
  radio_read_reply owner count (s, none) =
      read_nothing (record { serial = some s; owner = owner }) (io_failed 0)
  radio_read_reply owner count (s, some bytes) = record {
    result = io_progress count;
    bytes = bytes;
    endpoint = record { serial = some s; owner = owner };
  }

  unfoldable pub radio_read :
      ZigbeeRadioStreamEndpoint U → ℕ → ReadReply (ZigbeeRadioStreamEndpoint U)
  unfolding same_owner
  radio_read e count = elim e.serial [
    | none ↦ read_nothing e (io_failed 0)
    | some s ↦
        if not (same_owner s.owner e.owner)
        then read_nothing e (io_failed 0)
        else if stream_available ops s e.owner == 0
        then read_nothing e io_would_block
        else let n = min count (stream_available ops s e.owner) in
          radio_read_reply e.owner n (stream_read_array ops s e.owner n)
  ]

  abbrev pub radio_write_reply :
      ZigbeeSerialOwner
      → ℕ
      → ZigbeeSerialInterface U × Bool
      → WriteReply (ZigbeeRadioStreamEndpoint U)
  radio_write_reply owner count (s, false) = record {
    result = io_failed 0;
    endpoint = record { serial = some s; owner = owner };
  }
  radio_write_reply owner count (s, true) = record {
    result = io_progress count;
    endpoint = record { serial = some s; owner = owner };
  }

  unfoldable pub radio_write :
      ZigbeeRadioStreamEndpoint U → List ℕ → WriteReply (ZigbeeRadioStreamEndpoint U)
  radio_write e out = elim e.serial [
    | none ↦ record { result = io_failed 0; endpoint = e }
    | some s ↦ radio_write_reply e.owner (length out) (stream_write_array ops s e.owner out)
  ]

  abbrev pub radio_endpoint : ZigbeeStreamEndpoint (ZigbeeRadioStreamEndpoint U)
  radio_endpoint = record { read = radio_read; write = radio_write }

  -- The endpoint over a plain UART is its pointer.
  unfoldable pub uart_drain : Option U → Option U
  unfolding drain_loop
  uart_drain none = none
  uart_drain (some u) = some (drain_loop ops (ops.available u + 1) u)

  abbrev pub uart_read_reply : ℕ → Option (List ℕ) × U → ReadReply (Option U)
  uart_read_reply count (none, u) = read_nothing (some u) (io_failed 0)
  uart_read_reply count (some bytes, u) = record {
    result = io_progress count;
    bytes = bytes;
    endpoint = some u;
  }

  unfoldable pub uart_read : Option U → ℕ → ReadReply (Option U)
  uart_read none count = read_nothing none (io_failed 0)
  uart_read (some u) count =
      if ops.available u == 0
      then read_nothing (some u) io_would_block
      else let n = min count (ops.available u) in uart_read_reply n (ops.read_array u n)

  unfoldable pub uart_write : Option U → List ℕ → WriteReply (Option U)
  uart_write none out = record { result = io_failed 0; endpoint = none }
  uart_write (some u) out = record {
    result = io_progress (length out);
    endpoint = some (ops.write_array u out);
  }

  abbrev pub uart_endpoint : ZigbeeStreamEndpoint (Option U)
  uart_endpoint = record { read = uart_read; write = uart_write }
