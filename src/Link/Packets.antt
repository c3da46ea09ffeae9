-- ===== src/Link/Packets.antt =====
-- A packet that the bootloader sends is read, if it is well formed.
use mathlib.Core.Option.{some}
use zigbee_gateway.Common.{
  ℕ, ◌+◌, ◌-◌, ◌%◌, ◌^◌, ◌≤◌, ◌<◌, ◌≡◌, ◌≢◌, arith, false, List, [], ◌∷◌, ◌++◌, ltb, length,
}
use zigbee_gateway.Common.Bits.{and_255}
use zigbee_gateway.Bsl.Frame.{checksum}
use zigbee_gateway.Bsl.Check.{sum, checksum-sum}
use zigbee_gateway.Link.Port.{Port}
use zigbee_gateway.Link.Loader.{judge, read_payload, read_packet}
use zigbee_gateway.Link.Line.{IsLine, read_exact_t-front}

module _ {W : Type 0} (port : Port W) where
  judge-ack :
      (payload : List ℕ) (w : W)
      → judge port (sum payload % 256) (some payload) w
        ≡ (some payload, port.flush (port.write_array w (0x00 ∷ 0xCC ∷ [])))
  unfolding judge
  judge-ack payload w = ground (arith, and_255 (checksum 0 payload), checksum-sum 0 payload)

module _ {W : Type 0} (port : Port W) (rest : W → List ℕ) (ticks due : W → ℕ) (gap step : ℕ)
    (line : IsLine port rest ticks due gap step) where
  -- On a line where each byte comes within `gap` ms of the one before, and the first within `gap`
  -- ms from now, and where a read or a wait of a millisecond takes at most `step` ms: of a packet
  -- with at least one byte, all of which fit the buffer, and with their sum modulo 256 as the
  -- checksum, the payload is read, and the packet is acknowledged once it is off the line. Both
  -- timeouts exceed `gap + step` ms. A timeout is at most 2 ^ 32 ms.
  pub read_packet-sent :
      (payload more : List ℕ) (w : W) (capacity header_ms payload_ms : ℕ)
      → rest w ≡ (length payload + 2) ∷ (sum payload % 256) ∷ (payload ++ more)
      → due w ≤ ticks w + gap
      → length payload ≢ 0
      → length payload ≤ capacity
      → gap + step < header_ms
      → header_ms ≤ 2 ^ 32
      → gap + step < payload_ms
      → payload_ms ≤ 2 ^ 32
      → (v : W) × (read_packet port capacity header_ms payload_ms w
          ≡ (some payload, port.flush (port.write_array v (0x00 ∷ 0xCC ∷ []))))
        × (rest v ≡ more)
  unfolding read_packet read_payload
  read_packet-sent payload more w capacity header_ms payload_ms e soon some_bytes fits h header_word
        k payload_word =
      let (u, f, a, soon_u) =
        read_exact_t-front port rest ticks due gap step line
          ((length payload + 2) ∷ (sum payload % 256) ∷ []) _ w header_ms e soon h header_word in
      let (v, g, b, soon_v) =
        read_exact_t-front port rest ticks due gap step line payload more u payload_ms a soon_u k
          payload_word in
      let long : ltb (length payload + 2) 3 ≡ false = ground arith in
      let room : ltb capacity (length payload + 2 - 2) ≡ false = ground arith in
      let whole : length payload + 2 - 2 ≡ length payload = omega arith in
      (v, rw f (rw long (rw room (rw whole (rw g (judge-ack port payload v))))), b)
