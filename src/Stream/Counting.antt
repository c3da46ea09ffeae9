-- ===== src/Stream/Counting.antt =====
-- The endpoints over a UART and over a socket count their bytes.
use mathlib.Core.Option.{Option, none, some}
use zigbee_gateway.Common.{ℕ, zero, suc, ◌≤◌, ◌≡◌, refl, arith, List, length, min}
use zigbee_gateway.Serial.Owner.{ZigbeeSerialOwner}
use zigbee_gateway.Serial.Uart.{UartComponent}
use zigbee_gateway.Serial.Gate.{
  ZigbeeSerialInterface, stream_available, stream_read_array, stream_write_array,
}
use zigbee_gateway.Stream.Endpoint.{progress}
use zigbee_gateway.Stream.Total.{IsCounted}
use zigbee_gateway.Stream.Sockets.{
  SocketResult, moved, errno, Socket, socket_result, socket_read, socket_write, socket_endpoint,
}
use zigbee_gateway.Stream.Adapters.{radio_read_reply, radio_read, radio_write, radio_endpoint}

-- A read of a socket stores the bytes that it counts, at most as many as were asked for; a write
-- takes at most what it was given.
pub record IsSocket {S : Type 0} (sockets : Socket S) : Type 0 where
  pub read_moved :
      (s : S) (n : ℕ) {count : ℕ}
      → (sockets.read s n).0 ≡ moved count
      → (length (sockets.read s n).1 ≡ count) × (count ≤ n)
  pub write_moved :
      (s : S) (out : List ℕ) {count : ℕ}
      → (sockets.write s out).0 ≡ moved count
      → count ≤ length out

-- A read of a UART that succeeds stores as many bytes as were asked for.
pub record ReadsAll {U : Type 0} (uart : UartComponent U) : Type 0 where
  pub read_array_length :
      (u : U) (n : ℕ) {bytes : List ℕ} → (uart.read_array u n).0 ≡ some bytes → length bytes ≡ n

module _ {S : Type 0} (sockets : Socket S) (law : IsSocket sockets) where
  result-progress :
      (r : SocketResult) (last : ℕ)
      → (socket_result sockets r last).0.state ≡ progress
      → r ≡ moved (socket_result sockets r last).0.count
  unfolding socket_result
  result-progress (moved zero) last h = cc
  result-progress (moved (suc n)) last h = refl
  result-progress (errno code) last h = ground arith

  socket_read-counts :
      (o : Option S) (last n : ℕ)
      → let r = socket_read sockets (record { socket = o; last_error = last }) n in
        r.result.state ≡ progress → (length r.bytes ≡ r.result.count) × (r.result.count ≤ n)
  unfolding socket_read
  socket_read-counts none last n h = cc
  socket_read-counts (some s) last n h =
      law.read_moved s n (result-progress (sockets.read s n).0 last h)

  socket_write-counts :
      (o : Option S) (last : ℕ) (out : List ℕ)
      → let r = socket_write sockets (record { socket = o; last_error = last }) out in
        r.result.state ≡ progress → r.result.count ≤ length out
  unfolding socket_write
  socket_write-counts none last out h = cc
  socket_write-counts (some s) last out h =
      law.write_moved s out (result-progress (sockets.write s out).0 last h)

  pub socket_endpoint-IsCounted : IsCounted (socket_endpoint sockets)
  socket_endpoint-IsCounted = record {
    read_counts = λ e n h. socket_read-counts e.socket e.last_error n h;
    write_counts = λ e out h. socket_write-counts e.socket e.last_error out h;
  }

module _ {U : Type 0} (uart : UartComponent U) (law : ReadsAll uart) where
  stream_read-length :
      (o : Option U) (held owner : ZigbeeSerialOwner) (n : ℕ) (bytes : List ℕ)
      → (stream_read_array uart (record { uart = o; owner = held }) owner n).1 ≡ some bytes
      → length bytes ≡ n
  unfolding stream_read_array
  stream_read-length none held owner n bytes h = ground arith
  stream_read-length (some u) held owner n bytes h =
      ground (arith, law.read_array_length u n {bytes = bytes})

  -- What a reply counts, of a read that stores `k` bytes if it succeeds.
  reply-counts :
      (owner : ZigbeeSerialOwner) (k n : ℕ) (s : ZigbeeSerialInterface U) (o : Option (List ℕ))
      → k ≤ n
      → ((bytes : List ℕ) → o ≡ some bytes → length bytes ≡ k)
      → (radio_read_reply uart owner k (s, o)).result.state ≡ progress
      → (length (radio_read_reply uart owner k (s, o)).bytes
          ≡ (radio_read_reply uart owner k (s, o)).result.count)
        × ((radio_read_reply uart owner k (s, o)).result.count ≤ n)
  reply-counts owner k n s none within all h = cc
  reply-counts owner k n s (some bytes) within all h = (all bytes refl, within)

  radio_read-counts :
      (o : Option (ZigbeeSerialInterface U)) (owner : ZigbeeSerialOwner) (n : ℕ)
      → let r = radio_read uart (record { serial = o; owner = owner }) n in
        r.result.state ≡ progress → (length r.bytes ≡ r.result.count) × (r.result.count ≤ n)
  unfolding radio_read
  radio_read-counts none owner n h = cc
  radio_read-counts (some s) owner n h = ground (
    arith,
    reply-counts owner (min n (stream_available uart s owner)) n
        (stream_read_array uart s owner (min n (stream_available uart s owner))).0
        (stream_read_array uart s owner (min n (stream_available uart s owner))).1 (omega arith)
        (stream_read-length s.uart s.owner owner (min n (stream_available uart s owner))),
  )

  radio_write-counts :
      (o : Option (ZigbeeSerialInterface U)) (owner : ZigbeeSerialOwner) (out : List ℕ)
      → let r = radio_write uart (record { serial = o; owner = owner }) out in
        r.result.state ≡ progress → r.result.count ≤ length out
  unfolding radio_write stream_write_array
  radio_write-counts none owner out h = cc
  radio_write-counts (some s) owner out h = ground arith

  pub radio_endpoint-IsCounted : IsCounted (radio_endpoint uart)
  radio_endpoint-IsCounted = record {
    read_counts = λ e n h. radio_read-counts e.serial e.owner n h;
    write_counts = λ e out h. radio_write-counts e.serial e.owner out h;
  }
