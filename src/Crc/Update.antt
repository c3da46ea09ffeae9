-- ===== src/Crc/Update.antt =====
-- zigbee_crc32.h: the reflected CRC-32, one bit at a time.
use zigbee_gateway.Common.{
  ℕ, zero, suc, ◌≡◌, refl, bit_and, bit_xor, List, [], ◌∷◌, ◌++◌, ◌==◌, if◌then◌else◌, ◌>>◌, take,
}

abbrev pub polynomial : ℕ
polynomial = 0xEDB88320

-- One round of the inner loop.
unfoldable pub crc_bit : ℕ → ℕ
crc_bit crc = bit_xor (crc >> 1) (if bit_and crc 1 == 0 then 0 else polynomial)

-- The inner loop, with the rounds that are left.
unfoldable pub crc_bits : ℕ → ℕ → ℕ
unfolding crc_bit
crc_bits zero crc = crc
crc_bits (suc n) crc = crc_bits n (crc_bit crc)

-- The outer loop, over the bytes.
unfoldable pub crc_bytes : ℕ → List ℕ → ℕ
unfolding crc_bits
crc_bytes crc [] = crc
crc_bytes crc (b ∷ bs) = crc_bytes (crc_bits 8 (bit_xor crc b)) bs

unfoldable pub zigbee_crc32_update : ℕ → List ℕ → ℕ → ℕ
unfolding crc_bytes
zigbee_crc32_update crc bytes count = crc_bytes crc (take count bytes)

unfoldable pub zigbee_crc32 : List ℕ → ℕ → ℕ
unfolding zigbee_crc32_update
zigbee_crc32 bytes count = bit_xor (zigbee_crc32_update 0xFFFFFFFF bytes count) 0xFFFFFFFF

pub crc_bytes-append :
    (crc : ℕ) (xs ys : List ℕ) → crc_bytes crc (xs ++ ys) ≡ crc_bytes (crc_bytes crc xs) ys
unfolding crc_bytes
crc_bytes-append crc [] ys = refl
crc_bytes-append crc (x ∷ xs) ys = crc_bytes-append (crc_bits 8 (bit_xor crc x)) xs ys

-- The check value of the CRC-32: that of the text "123456789".
check_value : zigbee_crc32 (49 ∷ 50 ∷ 51 ∷ 52 ∷ 53 ∷ 54 ∷ 55 ∷ 56 ∷ 57 ∷ []) 9 ≡ 0xCBF43926
unfolding zigbee_crc32
check_value = refl
