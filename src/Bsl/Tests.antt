-- ===== src/Bsl/Tests.antt =====
-- The bootloader's frames at concrete bytes.
use mathlib.Core.Option.{some}
use zigbee_gateway.Common.{
  ℕ, ◌+◌, ◌<◌, ◌≡◌, ◌≢◌, ◌↔◌, ◌⊎◌, refl, arith, List, [], ◌∷◌, length, take, drop, replicate,
}
use zigbee_gateway.Bsl.Response.{
  ack, nak, new_parser, zigbee_bsl_parse_command_response, responses, parse_command_response_iff,
  pairs, responses-pairs,
}
use zigbee_gateway.Bsl.Words.{
  zigbee_bsl_encode_u32_be, zigbee_bsl_decode_u32_be, decode-encode, encode-decode,
}
use zigbee_gateway.Bsl.Frame.{
  zigbee_bsl_build_download_crc_payload, zigbee_bsl_build_send_data_payload, zigbee_bsl_build_frame,
}
use zigbee_gateway.Bsl.Check.{
  read_frame, reported, build_frame-refuses, read_frame-build_frame, read_frame-send_data,
  download_crc-fields,
}

abbrev array : List ℕ
array = replicate 16 0

abbrev answer : List ℕ
answer = 0x00 ∷ 0xCC ∷ []

parse_command_response_iff_example :
    ((zigbee_bsl_parse_command_response (some answer) 2 ≡ ack) ↔ (answer ≡ 0x00 ∷ 0xCC ∷ []))
    × ((zigbee_bsl_parse_command_response (some answer) 2 ≡ nak) ↔ (answer ≡ 0x00 ∷ 0x33 ∷ []))
parse_command_response_iff_example = parse_command_response_iff answer

responses-pairs_example :
    responses new_parser (5 ∷ 0 ∷ 0 ∷ 0xCC ∷ 0 ∷ 0x33 ∷ [])
    ≡ pairs 1 (5 ∷ 0 ∷ 0 ∷ 0xCC ∷ 0 ∷ 0x33 ∷ [])
responses-pairs_example = responses-pairs (5 ∷ 0 ∷ 0 ∷ 0xCC ∷ 0 ∷ 0x33 ∷ [])

decode-encode_example : zigbee_bsl_decode_u32_be (zigbee_bsl_encode_u32_be 0x50004) ≡ 0x50004
decode-encode_example = decode-encode 0x50004 (omega arith)

encode-decode_example :
    zigbee_bsl_encode_u32_be (zigbee_bsl_decode_u32_be (0 ∷ 5 ∷ 0 ∷ 4 ∷ [])) ≡ 0 ∷ 5 ∷ 0 ∷ 4 ∷ []
encode-decode_example =
    encode-decode 0 5 0 4 (omega arith) (omega arith) (omega arith) (omega arith)

abbrev room : ℕ
room = 2

abbrev one : ℕ
one = 1

build_frame-refuses_example :
    let b = zigbee_bsl_build_frame (some (7 ∷ [])) one (some array) room in
    ((b.size ≡ 0) ↔ ((one ≡ 0) ⊎ (253 < one) ⊎ (room < one + 2)))
    × ((b.size ≢ 0) ⊎ (b.buffer ≡ some array))
build_frame-refuses_example = build_frame-refuses (7 ∷ []) array one room

read_frame-build_frame_example :
    let b = zigbee_bsl_build_frame (some (7 ∷ 250 ∷ 9 ∷ [])) 2 (some array) 16 in
    (b.size ≡ 4) × (read_frame (reported b) ≡ some (7 ∷ 250 ∷ []))
read_frame-build_frame_example =
    read_frame-build_frame (7 ∷ 250 ∷ 9 ∷ []) array 2 16 (omega arith) (λ e. omega arith)
      (omega arith) (omega arith)

read_frame-send_data_example :
    let p = zigbee_bsl_build_send_data_payload (some (7 ∷ 8 ∷ [])) 2 (some array) 16 in
    let b = zigbee_bsl_build_frame p.buffer p.size (some array) 16 in
    read_frame (reported b) ≡ some (0x24 ∷ 7 ∷ 8 ∷ [])
read_frame-send_data_example =
    read_frame-send_data (7 ∷ 8 ∷ []) array array (λ e. omega arith) (omega arith) (omega arith)
      (omega arith)

download_crc-fields_example :
    let p = reported (zigbee_bsl_build_download_crc_payload 0x50000 0x2000 77 (some array) 16) in
    (length p ≡ 13)
    × (take 1 p ≡ 0x2F ∷ [])
    × (zigbee_bsl_decode_u32_be (drop 1 p) ≡ 0x50000)
    × (zigbee_bsl_decode_u32_be (drop 5 p) ≡ 0x2000)
    × (zigbee_bsl_decode_u32_be (drop 9 p) ≡ 77)
download_crc-fields_example =
    download_crc-fields 0x50000 0x2000 77 array 16 (omega arith) (omega arith) (omega arith)
      (λ e. omega arith) refl (omega arith)
