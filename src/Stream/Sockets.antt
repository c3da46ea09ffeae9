-- ===== src/Stream/Sockets.antt =====
-- `ZigbeeSocketStreamEndpoint` of zigbee_stream_adapters.h. The socket of ESPHome is a parameter.
use mathlib.Core.Option.{Option, none, some}
use zigbee_gateway.Common.{ℕ, zero, suc, List, [], ◌==◌, ◌||◌, if◌then◌else◌}
use zigbee_gateway.Stream.Endpoint.{
  io_progress, io_would_block, io_closed, io_failed, ZigbeeStreamIoResult, ReadReply, WriteReply,
  ZigbeeStreamEndpoint,
}

-- A call returns -1 with `errno`, or the count of bytes that it moved.
pub data SocketResult : Type 0 where
  moved : ℕ → SocketResult
  errno : ℕ → SocketResult

-- The operations of `socket::Socket`, and the two values of `errno` for a call that would block. A
-- read returns the bytes that it stored.
pub record Socket (S : Type 0) : Type 0 where
  pub read : S → ℕ → SocketResult × List ℕ × S
  pub write : S → List ℕ → SocketResult × S
  pub ewouldblock : ℕ
  pub eagain : ℕ

pub record ZigbeeSocketStreamEndpoint (S : Type 0) : Type 0 where
  pub socket : Option S
  pub last_error : ℕ

unfoldable pub set_socket : {S : Type 0} → Option S → ZigbeeSocketStreamEndpoint S
set_socket s = record { socket = s; last_error = 0 }

module _ {S : Type 0} (ops : Socket S) where
  -- The branches that `read` and `write` share: the result, and the error that is kept.
  unfoldable pub socket_result : SocketResult → ℕ → ZigbeeStreamIoResult × ℕ
  socket_result (moved zero) last = (io_closed, last)
  socket_result (moved (suc n)) last = (io_progress (suc n), last)
  socket_result (errno code) last =
      if code == ops.ewouldblock || code == ops.eagain
      then (io_would_block, last)
      else (io_failed code, code)

  unfoldable pub socket_read :
      ZigbeeSocketStreamEndpoint S → ℕ → ReadReply (ZigbeeSocketStreamEndpoint S)
  unfolding socket_result
  socket_read e count = elim e.socket [
    | none ↦ record { result = io_closed; bytes = []; endpoint = e }
    | some s ↦
        let (got, bytes, s') = ops.read s count in
        let (result, last) = socket_result got e.last_error in
        record {
          result = result;
          bytes = bytes;
          endpoint = record { socket = some s'; last_error = last };
        }
  ]

  unfoldable pub socket_write :
      ZigbeeSocketStreamEndpoint S → List ℕ → WriteReply (ZigbeeSocketStreamEndpoint S)
  unfolding socket_result
  socket_write e out = elim e.socket [
    | none ↦ record { result = io_closed; endpoint = e }
    | some s ↦
        let (put, s') = ops.write s out in
        let (result, last) = socket_result put e.last_error in
        record { result = result; endpoint = record { socket = some s'; last_error = last } }
  ]

  abbrev pub socket_endpoint : ZigbeeStreamEndpoint (ZigbeeSocketStreamEndpoint S)
  socket_endpoint = record { read = socket_read; write = socket_write }
