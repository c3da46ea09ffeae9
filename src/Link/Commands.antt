-- ===== src/Link/Commands.antt =====
-- The bootloader commands of protocol.h. A result is whether the command succeeded, and the value
-- that `*status_out` is given, if any.
use mathlib.Core.Option.{Option, none, some}
use zigbee_gateway.Common.{
  ℕ, bit_and, Bool, false, not, ◌||◌, List, [], ◌∷◌, ◌++◌, ltb, ◌==◌, if◌then◌else◌, length,
  replicate,
}
use zigbee_gateway.Bsl.Words.{zigbee_bsl_encode_u32_be, zigbee_bsl_decode_u32_be}
use zigbee_gateway.Bsl.Frame.{
  Built, zigbee_bsl_build_download_crc_payload, zigbee_bsl_build_send_data_payload,
  zigbee_bsl_build_frame,
}
use zigbee_gateway.Bsl.Check.{reported}
use zigbee_gateway.Link.Port.{Port, M, ◌>>=◌, ◌>>◌, pure, send}
use zigbee_gateway.Link.Loader.{bsl_expect_ack, bsl_get_status, bsl_exec}

-- The timeouts of a command, in milliseconds, and the fuel of its waits.
pub record Timing : Type 0 where
  pub fuel : ℕ
  pub command_ack_timeout_ms : ℕ
  pub status_ack_timeout_ms : ℕ
  pub header_timeout_ms : ℕ
  pub payload_timeout_ms : ℕ

-- The frame of a payload, in an array of the caller.
abbrev pub frame_of : List ℕ → ℕ → ℕ → Built
frame_of payload payload_length capacity =
    zigbee_bsl_build_frame (some payload) payload_length (some (replicate capacity 0)) capacity

module _ {W : Type 0} (port : Port W) where
  unfoldable pub bsl_reset : ℕ → ℕ → M W Bool
  bsl_reset fuel ack_timeout_ms =
      let frame = frame_of (0x25 ∷ []) 1 3 in
      if frame.size == 0
      then pure false
      else do send port (reported frame); bsl_expect_ack port fuel ack_timeout_ms

  -- The result for a status that was read, or not.
  abbrev pub status_result : Option ℕ → Bool × Option ℕ
  status_result none = (false, some 0)
  status_result (some status) = (status == 0x40, some status)

  unfoldable pub bsl_command_status : Timing → List ℕ → ℕ → M W (Bool × Option ℕ)
  bsl_command_status t payload payload_length =
      if payload_length == 0 || ltb 253 payload_length
      then pure (false, none)
      else let frame = frame_of payload payload_length 255 in
        if frame.size == 0 then pure (false, some 0) else do
          send port (reported frame)
          acked ← bsl_expect_ack port t.fuel t.command_ack_timeout_ms
          if not acked then pure (false, some 0) else do
            status ←
                bsl_get_status port t.fuel t.status_ack_timeout_ms t.header_timeout_ms
                  t.payload_timeout_ms
            pure (status_result status)

  unfoldable pub bsl_bank_erase : Timing → M W (Bool × Option ℕ)
  unfolding bsl_command_status
  bsl_bank_erase t = bsl_command_status t (0x2C ∷ []) 1

  unfoldable pub bsl_download : Timing → ℕ → ℕ → M W (Bool × Option ℕ)
  unfolding bsl_command_status
  bsl_download t address size =
      if size == 0 || not (bit_and size 0x03 == 0)
      then pure (false, none)
      else bsl_command_status t
          (0x21 ∷ zigbee_bsl_encode_u32_be address ++ zigbee_bsl_encode_u32_be size) 9

  unfoldable pub bsl_download_crc : Timing → ℕ → ℕ → ℕ → M W (Bool × Option ℕ)
  unfolding bsl_command_status
  bsl_download_crc t address size crc =
      let p = zigbee_bsl_build_download_crc_payload address size crc (some (replicate 13 0)) 13 in
      if p.size == 0 then pure (false, none) else bsl_command_status t (reported p) p.size

  unfoldable pub bsl_send_data : Timing → Option (List ℕ) → ℕ → M W (Bool × Option ℕ)
  unfolding bsl_command_status
  bsl_send_data t bytes count =
      let p = zigbee_bsl_build_send_data_payload bytes count (some (replicate 253 0)) 253 in
      if p.size == 0 then pure (false, none) else bsl_command_status t (reported p) p.size

  -- The CRC of a reply of four bytes.
  abbrev pub crc_reply : Option (List ℕ) → Option ℕ
  crc_reply none = none
  crc_reply (some payload) =
      if length payload == 4 then some (zigbee_bsl_decode_u32_be payload) else none

  abbrev pub crc_result : ℕ → Option ℕ → Option ℕ × Option ℕ
  crc_result crc none = (none, some 0)
  crc_result crc (some status) = (if status == 0x40 then some crc else none, some status)

  -- What `bsl_crc32` does with the CRC that was read, if any.
  abbrev pub after_crc : Timing → Option ℕ → M W (Option ℕ × Option ℕ)
  after_crc t none = pure (none, some 0)
  after_crc t (some crc) = do
    status ←
        bsl_get_status port t.fuel t.status_ack_timeout_ms t.header_timeout_ms t.payload_timeout_ms
    pure (crc_result crc status)

  -- The value that `*crc_out` is given, if the command succeeds, beside that of `*status_out`.
  unfoldable pub bsl_crc32 : Timing → ℕ → ℕ → M W (Option ℕ × Option ℕ)
  bsl_crc32 t address size =
      if size == 0
      then pure (none, none)
      else let frame =
          frame_of
            (0x27 ∷ zigbee_bsl_encode_u32_be address
              ++ (zigbee_bsl_encode_u32_be size ++ zigbee_bsl_encode_u32_be 0))
            13 15 in
        if frame.size == 0 then pure (none, some 0) else do
          reply ←
              bsl_exec port 1 t.fuel (reported frame) 8 t.command_ack_timeout_ms t.header_timeout_ms
                t.payload_timeout_ms
          after_crc t (crc_reply reply)
