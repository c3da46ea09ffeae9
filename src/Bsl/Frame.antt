-- ===== src/Bsl/Frame.antt =====
-- The frame and payload builders of zigbee_bsl_frame.h. A builder returns the caller's array as it
-- leaves it, and the length that it reports, which is 0 for a refusal. A null pointer is `none`.
use mathlib.Core.Option.{Option, none, some}
use zigbee_gateway.Common.{
  ℕ, ◌+◌, bit_and, not, ◌||◌, List, [], ◌∷◌, ◌++◌, ltb, ◌==◌, if◌then◌else◌, u8, u32, length, take,
  drop,
}
use zigbee_gateway.Bsl.Words.{zigbee_bsl_encode_u32_be}

pub record Built : Type 0 where
  pub buffer : Option (List ℕ)
  pub size : ℕ

-- The bytes stored from the start of an array that has room for them.
abbrev pub store : List ℕ → List ℕ → List ℕ
store bytes array = bytes ++ drop (length bytes) array

unfoldable pub zigbee_bsl_build_download_crc_payload : ℕ → ℕ → ℕ → Option (List ℕ) → ℕ → Built
zigbee_bsl_build_download_crc_payload address size crc none capacity = record {
  buffer = none;
  size = 0;
}
zigbee_bsl_build_download_crc_payload address size crc (some payload) capacity =
    if size == 0 || (not (bit_and size 0x03 == 0) || ltb capacity 13)
    then record { buffer = some payload; size = 0 }
    else record {
      buffer = some (
          store
            (0x2F ∷ zigbee_bsl_encode_u32_be address
              ++ (zigbee_bsl_encode_u32_be size ++ zigbee_bsl_encode_u32_be crc))
            payload);
      size = 13;
    }

unfoldable pub zigbee_bsl_build_send_data_payload :
    Option (List ℕ) → ℕ → Option (List ℕ) → ℕ → Built
zigbee_bsl_build_send_data_payload none count payload capacity = record {
  buffer = payload;
  size = 0;
}
zigbee_bsl_build_send_data_payload (some bytes) count none capacity = record {
  buffer = none;
  size = 0;
}
zigbee_bsl_build_send_data_payload (some bytes) count (some payload) capacity =
    if count == 0 || (ltb 252 count || ltb capacity (count + 1))
    then record { buffer = some payload; size = 0 }
    else record { buffer = some (store (0x24 ∷ take count bytes) payload); size = count + 1 }

-- The `uint32_t` accumulator of the loop over the payload.
unfoldable pub checksum : ℕ → List ℕ → ℕ
checksum sum [] = sum
checksum sum (b ∷ bs) = checksum (u32 (sum + b)) bs

unfoldable pub zigbee_bsl_build_frame : Option (List ℕ) → ℕ → Option (List ℕ) → ℕ → Built
unfolding checksum
zigbee_bsl_build_frame none payload_length frame frame_capacity = record {
  buffer = frame;
  size = 0;
}
zigbee_bsl_build_frame (some payload) payload_length none frame_capacity = record {
  buffer = none;
  size = 0;
}
zigbee_bsl_build_frame (some payload) payload_length (some frame) frame_capacity =
    if payload_length == 0 || (ltb 253 payload_length || ltb frame_capacity (payload_length + 2))
    then record { buffer = some frame; size = 0 }
    else let sum = checksum 0 (take payload_length payload) in
      record {
        buffer = some (
            store (u8 (payload_length + 2) ∷ u8 (bit_and sum 0xFF) ∷ take payload_length payload)
              frame);
        size = payload_length + 2;
      }
