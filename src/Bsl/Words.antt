-- ===== src/Bsl/Words.antt =====
-- The big-endian words of zigbee_bsl_frame.h.
use zigbee_gateway.Common.{
  ℕ, ◌+◌, ◌*◌, ◌/◌, ◌%◌, ◌^◌, ◌<◌, ◌≡◌, refl, ◌∙◌, arith, bit_and, bit_or, List, [], ◌∷◌, u8, u32,
  ◌<<◌, ◌>>◌, get_or, IsByte, IsWord,
}
use zigbee_gateway.Common.Bits.{and_255, or_sum}

-- The four bytes that are stored at `out`.
unfoldable pub zigbee_bsl_encode_u32_be : ℕ → List ℕ
zigbee_bsl_encode_u32_be value =
    u8 (bit_and (value >> 24) 0xFF)
    ∷ u8 (bit_and (value >> 16) 0xFF)
    ∷ u8 (bit_and (value >> 8) 0xFF)
    ∷ u8 (bit_and value 0xFF)
    ∷ []

unfoldable pub zigbee_bsl_decode_u32_be : List ℕ → ℕ
zigbee_bsl_decode_u32_be bytes =
    bit_or
      (bit_or (bit_or (u32 (get_or bytes 0 0 << 24)) (u32 (get_or bytes 1 0 << 16)))
        (u32 (get_or bytes 2 0 << 8)))
      (get_or bytes 3 0)

pub encode-bytes :
    (value : ℕ)
    → zigbee_bsl_encode_u32_be value
      ≡ (value / 2 ^ 24 % 256) ∷ (value / 2 ^ 16 % 256) ∷ (value / 2 ^ 8 % 256) ∷ (value % 256) ∷ []
unfolding zigbee_bsl_encode_u32_be
encode-bytes value = ground (
  arith,
  and_255 (value / 2 ^ 24),
  and_255 (value / 2 ^ 16),
  and_255 (value / 2 ^ 8),
  and_255 value,
)

pub decode-sum :
    (a b c d : ℕ)
    → IsByte a
    → IsByte b
    → IsByte c
    → IsByte d
    → zigbee_bsl_decode_u32_be (a ∷ b ∷ c ∷ d ∷ []) ≡ a * 2 ^ 24 + b * 2 ^ 16 + c * 2 ^ 8 + d
unfolding zigbee_bsl_decode_u32_be
decode-sum a b c d ha hb hc hd =
    let e = or_sum 24 a (a * 2 ^ 24) (b * 2 ^ 16) refl (omega arith) in
    let e' =
      or_sum 16 (a * 2 ^ 8 + b) (a * 2 ^ 24 + b * 2 ^ 16) (c * 2 ^ 8) (omega arith) (omega arith) in
    let e'' =
      or_sum 8 (a * 2 ^ 16 + b * 2 ^ 8 + c) (a * 2 ^ 24 + b * 2 ^ 16 + c * 2 ^ 8) d (omega arith)
        (omega arith) in
    rw
      (
        fits (a * 2 ^ 24) (omega arith),
        fits (b * 2 ^ 16) (omega arith),
        fits (c * 2 ^ 8) (omega arith),
      )
      (rw e (rw e' e''))
  where
    fits : (x : ℕ) → x < 2 ^ 32 → u32 x ≡ x
    fits x h = omega arith

-- Every 32-bit value is read back from the four bytes that encode it.
pub decode-encode :
    (value : ℕ) → IsWord value → zigbee_bsl_decode_u32_be (zigbee_bsl_encode_u32_be value) ≡ value
decode-encode value h = rw (encode-bytes value) (
    decode-sum (value / 2 ^ 24 % 256) (value / 2 ^ 16 % 256) (value / 2 ^ 8 % 256) (value % 256)
      (omega arith) (omega arith) (omega arith) (omega arith)
    ∙ omega arith)

-- Four bytes are written back from the value that they decode to.
pub encode-decode :
    (a b c d : ℕ)
    → IsByte a
    → IsByte b
    → IsByte c
    → IsByte d
    → zigbee_bsl_encode_u32_be (zigbee_bsl_decode_u32_be (a ∷ b ∷ c ∷ d ∷ [])) ≡ a ∷ b ∷ c ∷ d ∷ []
encode-decode a b c d ha hb hc hd =
    rw (decode-sum a b c d ha hb hc hd, encode-bytes (a * 2 ^ 24 + b * 2 ^ 16 + c * 2 ^ 8 + d))
      (ground arith)
