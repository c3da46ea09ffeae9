-- ===== src/Crc/Detection.antt =====
-- One damaged byte is always detected: each round of the CRC can be undone.
use zigbee_gateway.Common.{
  ℕ, zero, suc, ◌+◌, ◌*◌, ◌/◌, ◌^◌, ◌≤◌, ◌<◌, ◌≡◌, ◌≢◌, inl, inr, refl, ap, sym, ◌∙◌, arith,
  bit_and, bit_xor, List, [], ◌∷◌, ◌++◌, ltb, ◌==◌, if◌then◌else◌, length, take-length, All, IsByte,
  IsWord, Bool-cases,
}
use zigbee_gateway.Common.Bits.{and_1, xor_comm, xor-zero, xor_cancel, xor-lt}
use zigbee_gateway.Crc.Update.{
  polynomial, crc_bit, crc_bits, crc_bytes, zigbee_crc32_update, zigbee_crc32,
}

-- The polynomial has the highest bit, and half of a word has not.
high_bit : (x : ℕ) → x < 2 ^ 31 → 2 ^ 31 ≤ bit_xor x polynomial
high_bit x h = elim (Bool-cases (ltb (bit_xor x polynomial) (2 ^ 31))) [
  | inl low ↦ absurd (omega (arith, back, xor-lt 31 (bit_xor x polynomial) x (ground arith) h))
  | inr high ↦ ground arith
]
  where
    back : bit_xor (bit_xor x polynomial) x ≡ polynomial
    back = rw (xor_comm x polynomial) (xor_cancel polynomial x)

abbrev undo_bit : ℕ → ℕ
undo_bit y = if ltb y (2 ^ 31) then 2 * y else 2 * bit_xor y polynomial + 1

undo_bit-crc_bit : (x : ℕ) → IsWord x → undo_bit (crc_bit x) ≡ x
unfolding crc_bit
undo_bit-crc_bit x h = elim (Bool-cases (bit_and x 1 == 0)) [
  | inl even ↦ rw (even, xor-zero (x / 2 ^ 1)) (ground (arith, and_1 x))
  | inr odd ↦ rw odd (
      ground
        (arith, and_1 x, high_bit (x / 2 ^ 1) (omega arith), xor_cancel (x / 2 ^ 1) polynomial))
]

crc_bit-IsWord : (x : ℕ) → IsWord x → IsWord (crc_bit x)
unfolding crc_bit
crc_bit-IsWord x h =
    xor-lt 32 (x / 2 ^ 1) (if bit_and x 1 == 0 then 0 else polynomial) (omega arith) (ground arith)

crc_bits-IsWord : (n x : ℕ) → IsWord x → IsWord (crc_bits n x)
unfolding crc_bits
crc_bits-IsWord zero x h = h
crc_bits-IsWord (suc n) x h = crc_bits-IsWord n (crc_bit x) (crc_bit-IsWord x h)

crc_bits-injective : (n x y : ℕ) → IsWord x → IsWord y → crc_bits n x ≡ crc_bits n y → x ≡ y
unfolding crc_bits
crc_bits-injective zero x y hx hy e = e
crc_bits-injective (suc n) x y hx hy e =
    sym (undo_bit-crc_bit x hx)
    ∙ ap undo_bit
        (crc_bits-injective n (crc_bit x) (crc_bit y) (crc_bit-IsWord x hx) (crc_bit-IsWord y hy) e)
    ∙ undo_bit-crc_bit y hy

mixed-IsWord : (crc b : ℕ) → IsWord crc → IsByte b → IsWord (bit_xor crc b)
mixed-IsWord crc b h k = xor-lt 32 crc b h (omega arith)

pub crc_bytes-IsWord : (x : ℕ) (bs : List ℕ) → IsWord x → All IsByte bs → IsWord (crc_bytes x bs)
unfolding crc_bytes
crc_bytes-IsWord x [] h bytes = h
crc_bytes-IsWord x (b ∷ bs) h bytes =
    crc_bytes-IsWord (crc_bits 8 (bit_xor x b)) bs
      (crc_bits-IsWord 8 (bit_xor x b) (mixed-IsWord x b h bytes.0)) bytes.1

crc_bytes-injective :
    (x y : ℕ) (bs : List ℕ)
    → IsWord x
    → IsWord y
    → All IsByte bs
    → crc_bytes x bs ≡ crc_bytes y bs
    → x ≡ y
unfolding crc_bytes
crc_bytes-injective x y [] hx hy hb e = e
crc_bytes-injective x y (b ∷ bs) hx hy hb e =
    let ix = mixed-IsWord x b hx hb.0 in
    let iy = mixed-IsWord y b hy hb.0 in
    let same =
      crc_bytes-injective (crc_bits 8 (bit_xor x b)) (crc_bits 8 (bit_xor y b)) bs
        (crc_bits-IsWord 8 (bit_xor x b) ix) (crc_bits-IsWord 8 (bit_xor y b) iy) hb.1 e in
    let mixed = crc_bits-injective 8 (bit_xor x b) (bit_xor y b) ix iy same in
    sym (xor_cancel x b) ∙ ap (λ (s : ℕ). bit_xor s b) mixed ∙ xor_cancel y b

crc_bytes-damage :
    (crc b c : ℕ) (before after : List ℕ)
    → IsWord crc
    → All IsByte before
    → IsByte b
    → IsByte c
    → All IsByte after
    → crc_bytes crc (before ++ b ∷ after) ≡ crc_bytes crc (before ++ c ∷ after)
    → b ≡ c
unfolding crc_bytes
crc_bytes-damage crc b c (d ∷ before) after h hs hb hc ha e =
    crc_bytes-damage (crc_bits 8 (bit_xor crc d)) b c before after
      (crc_bits-IsWord 8 (bit_xor crc d) (mixed-IsWord crc d h hs.0)) hs.1 hb hc ha e
crc_bytes-damage crc b c [] after h hs hb hc ha e =
    let ib = mixed-IsWord crc b h hb in
    let ic = mixed-IsWord crc c h hc in
    let same =
      crc_bytes-injective (crc_bits 8 (bit_xor crc b)) (crc_bits 8 (bit_xor crc c)) after
        (crc_bits-IsWord 8 (bit_xor crc b) ib) (crc_bits-IsWord 8 (bit_xor crc c) ic) ha e in
    let mixed = crc_bits-injective 8 (bit_xor crc b) (bit_xor crc c) ib ic same in
    sym (xor_cancel b crc)
    ∙ ap (λ (s : ℕ). bit_xor s crc) (xor_comm b crc ∙ mixed ∙ xor_comm crc c)
    ∙ xor_cancel c crc

-- Two images of bytes that differ in one byte only have different checksums.
pub crc32-damage :
    (b c : ℕ) (before after : List ℕ)
    → All IsByte before
    → IsByte b
    → IsByte c
    → All IsByte after
    → b ≢ c
    → zigbee_crc32 (before ++ b ∷ after) (length (before ++ b ∷ after))
      ≢ zigbee_crc32 (before ++ c ∷ after) (length (before ++ c ∷ after))
unfolding zigbee_crc32 zigbee_crc32_update
crc32-damage b c before after hs hb hc ha other e = other (
    crc_bytes-damage 0xFFFFFFFF b c before after (omega arith) hs hb hc ha
      (sym (plain b) ∙ ap (λ (s : ℕ). bit_xor s 0xFFFFFFFF) e ∙ plain c))
  where
    plain :
        (v : ℕ)
        → bit_xor (zigbee_crc32 (before ++ v ∷ after) (length (before ++ v ∷ after))) 0xFFFFFFFF
          ≡ crc_bytes 0xFFFFFFFF (before ++ v ∷ after)
    plain v = rw (xor_cancel _ 0xFFFFFFFF, take-length (before ++ v ∷ after)) refl
