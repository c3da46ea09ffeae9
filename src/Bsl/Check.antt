-- ===== src/Bsl/Check.antt =====
-- What the bootloader reads back from the frames.
use mathlib.Core.Option.{Option, none, some}
use zigbee_gateway.Common.{
  ℕ, ◌+◌, ◌%◌, ◌≤◌, ◌<◌, ◌≡◌, ◌≢◌, ◌↔◌, ◌⊎◌, refl, ap, ◌∙◌, arith, bit_and, false, not, ◌&&◌, ◌||◌,
  List, [], ◌∷◌, ltb, ◌==◌, if◌then◌else◌, u8, u32, length, take, drop, IsWord, length-append,
  length-take, take-length, take-append_length,
}
use zigbee_gateway.Common.Bits.{and_255, and_3}
use zigbee_gateway.Bsl.Words.{zigbee_bsl_encode_u32_be, zigbee_bsl_decode_u32_be, decode-encode}
use zigbee_gateway.Bsl.Frame.{
  Built, store, zigbee_bsl_build_download_crc_payload, zigbee_bsl_build_send_data_payload, checksum,
  zigbee_bsl_build_frame,
}

-- The sum of the bytes.
abbrev pub sum : List ℕ → ℕ
sum [] = 0
sum (b ∷ bs) = b + sum bs

-- The packet that a receiver accepts: [size][sum of the payload modulo 256][payload].
abbrev pub read_frame : List ℕ → Option (List ℕ)
read_frame [] = none
read_frame (size ∷ []) = none
read_frame (size ∷ check ∷ payload) =
    if size == length payload + 2 && check == sum payload % 256 then some payload else none

pub checksum-sum : (start : ℕ) (bs : List ℕ) → checksum start bs % 256 ≡ (start + sum bs) % 256
unfolding checksum
checksum-sum start [] = omega arith
checksum-sum start (b ∷ bs) = omega (arith, checksum-sum (u32 (start + b)) bs)

abbrev pub contents : Option (List ℕ) → List ℕ
contents none = []
contents (some bytes) = bytes

-- The bytes that a builder reports, out of the array that it filled.
abbrev pub reported : Built → List ℕ
reported b = take b.size (contents b.buffer)

-- A builder refuses a frame exactly if the payload is empty, or longer than 253 bytes, or does not
-- fit the array with its header; it then leaves the array as it was.
pub build_frame-refuses :
    (payload frame : List ℕ) (payload_length capacity : ℕ)
    → let b = zigbee_bsl_build_frame (some payload) payload_length (some frame) capacity in
      ((b.size ≡ 0)
        ↔ ((payload_length ≡ 0) ⊎ (253 < payload_length) ⊎ (capacity < payload_length + 2)))
      × ((b.size ≢ 0) ⊎ (b.buffer ≡ some frame))
unfolding zigbee_bsl_build_frame
build_frame-refuses payload frame payload_length capacity = ground arith

-- What `store` puts at the start of an array is what is read there.
take-store : (n : ℕ) (bytes array : List ℕ) → n ≡ length bytes → take n (store bytes array) ≡ bytes
take-store n bytes array e = rw e (take-append_length bytes (drop (length bytes) array))

-- A frame that is not refused.
module _ (source frame : List ℕ) (count capacity : ℕ) (within : count ≤ length source)
    (some_bytes : count ≢ 0) (small : count ≤ 253) (fits : count + 2 ≤ capacity) where
  abbrev framed : List ℕ
  framed = (count + 2) ∷ (sum (take count source) % 256) ∷ take count source

  frame_accepted : (count == 0 || (ltb 253 count || ltb capacity (count + 2))) ≡ false
  frame_accepted = ground arith

  header_bytes :
      u8 (count + 2) ∷ u8 (bit_and (checksum 0 (take count source)) 0xFF) ∷ take count source
      ≡ framed
  header_bytes =
      ground (arith, and_255 (checksum 0 (take count source)), checksum-sum 0 (take count source))

  build_frame_lem :
      zigbee_bsl_build_frame (some source) count (some frame) capacity
      ≡ record { buffer = some (store framed frame); size = count + 2 }
  unfolding zigbee_bsl_build_frame
  build_frame_lem = rw frame_accepted (ap built header_bytes)
    where
      built : List ℕ → Built
      built bytes = record { buffer = some (store bytes frame); size = count + 2 }

  -- The first `count` bytes of the source, 1 to 253 of them, are framed in two bytes more if these
  -- fit the array, and the receiver reads them back from the frame.
  pub read_frame-build_frame :
      let b = zigbee_bsl_build_frame (some source) count (some frame) capacity in
      (b.size ≡ count + 2) × (read_frame (reported b) ≡ some (take count source))
  read_frame-build_frame = rw build_frame_lem (
    refl,
    rw (take-store (count + 2) framed frame (omega (arith, length-take count source)))
        (ground (arith, length-take count source)),
  )

send_data_lem :
    (block payload : List ℕ)
    → length block ≢ 0
    → length block ≤ 252
    → length block + 1 ≤ length payload
    → zigbee_bsl_build_send_data_payload (some block) (length block) (some payload) (length payload)
      ≡ record { buffer = some (store (0x24 ∷ block) payload); size = length block + 1 }
unfolding zigbee_bsl_build_send_data_payload
send_data_lem block payload some_bytes small fits = rw guard (ap built (take-length block))
  where
    guard :
        (length block == 0 || (ltb 252 (length block) || ltb (length payload) (length block + 1)))
        ≡ false
    guard = ground arith

    built : List ℕ → Built
    built bytes = record { buffer = some (store (0x24 ∷ bytes) payload); size = length block + 1 }

-- A data block of 1 to 252 bytes goes through both builders, and the receiver reads the command
-- byte 0x24 and then the block.
pub read_frame-send_data :
    (block payload frame : List ℕ)
    → length block ≢ 0
    → length block ≤ 252
    → length block + 1 ≤ length payload
    → length block + 3 ≤ length frame
    → let p =
        zigbee_bsl_build_send_data_payload
          (some block)
          (length block)
          (some payload)
          (length payload) in
      let b = zigbee_bsl_build_frame p.buffer p.size (some frame) (length frame) in
      read_frame (reported b) ≡ some (0x24 ∷ block)
read_frame-send_data block payload frame some_bytes small fits room =
    rw (send_data_lem block payload some_bytes small fits) (
      (read_frame-build_frame (store (0x24 ∷ block) payload) frame (length block + 1) (length frame)
        (omega (arith, length-append (0x24 ∷ block) (drop (length (0x24 ∷ block)) payload)))
        (λ e. omega arith) (omega arith) (omega arith)).1
      ∙ ap (λ (p : List ℕ). some p)
          (take-store (length block + 1) (0x24 ∷ block) payload (omega arith)))

-- A download command for a size that is a positive multiple of 4, in an array of at least 13
-- bytes, is the byte 0x2F and then the address, the size and the CRC, each decoded from its four
-- bytes.
pub download_crc-fields :
    (address size crc : ℕ) (payload : List ℕ) (capacity : ℕ)
    → IsWord address
    → IsWord size
    → IsWord crc
    → size ≢ 0
    → size % 4 ≡ 0
    → 13 ≤ capacity
    → let p =
        reported (zigbee_bsl_build_download_crc_payload address size crc (some payload) capacity) in
      (length p ≡ 13)
      × (take 1 p ≡ 0x2F ∷ [])
      × (zigbee_bsl_decode_u32_be (drop 1 p) ≡ address)
      × (zigbee_bsl_decode_u32_be (drop 5 p) ≡ size)
      × (zigbee_bsl_decode_u32_be (drop 9 p) ≡ crc)
unfolding zigbee_bsl_build_download_crc_payload zigbee_bsl_encode_u32_be zigbee_bsl_decode_u32_be
download_crc-fields address size crc payload capacity ha hs hc some_bytes aligned room =
    rw guard (refl, refl, decode-encode address ha, decode-encode size hs, decode-encode crc hc)
  where
    guard : (size == 0 || (not (bit_and size 0x03 == 0) || ltb capacity 13)) ≡ false
    guard = ground (arith, and_3 size)
