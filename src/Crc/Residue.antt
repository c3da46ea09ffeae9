-- ===== src/Crc/Residue.antt =====
-- The CRC-32 as a function of the whole message, read as one number, and the residue that a message
-- with its own checksum behind it leaves.
use native.Mathlib.Nat.{pow-suc}
use zigbee_gateway.Common.{
  ℕ, zero, suc, ◌+◌, ◌*◌, ◌/◌, ◌%◌, ◌^◌, ◌≡◌, refl, ap, sym, ◌∙◌, arith, bit_and, bit_xor, List, [],
  ◌∷◌, ◌++◌, ◌==◌, if◌then◌else◌, length, take-length, All, IsByte, IsWord,
}
use zigbee_gateway.Common.Bits.{
  and_1, xor_assoc, xor_comm, xor-zero, xor_cancel, xor-lt, xor_double, xor_sum,
}
use zigbee_gateway.Crc.Update.{
  polynomial, crc_bit, crc_bits, crc_bytes, crc_bytes-append, zigbee_crc32_update, zigbee_crc32,
}
use zigbee_gateway.Crc.Detection.{crc_bytes-IsWord}

-- A bit of the message that is not shifted out in a round is only shifted.
crc_bit-shift : (x h : ℕ) → crc_bit (bit_xor x (2 * h)) ≡ bit_xor (crc_bit x) h
unfolding crc_bit
crc_bit-shift x h =
    let half : bit_xor x (2 * h) / 2 ^ 1 ≡ bit_xor (x / 2 ^ 1) h = omega (arith, xor_double x h) in
    let low : bit_and (bit_xor x (2 * h)) 1 ≡ bit_and x 1 =
      omega (arith, xor_double x h, and_1 (bit_xor x (2 * h)), and_1 x) in
    rw (half, low) (swapped (x / 2 ^ 1) h (if bit_and x 1 == 0 then 0 else polynomial))
  where
    swapped : (a b c : ℕ) → bit_xor (bit_xor a b) c ≡ bit_xor (bit_xor a c) b
    swapped a b c =
        xor_assoc a b c ∙ ap (λ (t : ℕ). bit_xor a t) (xor_comm b c) ∙ sym (xor_assoc a c b)

crc_bits-shift : (n x h : ℕ) → crc_bits n (bit_xor x (2 ^ n * h)) ≡ bit_xor (crc_bits n x) h
unfolding crc_bits
crc_bits-shift zero x h = let one : 2 ^ 0 * h ≡ h = omega arith in rw one refl
crc_bits-shift (suc n) x h =
    let scaled : 2 ^ suc n * h ≡ 2 * (2 ^ n * h) = rw (pow-suc 2 n) (grind arith) in
    rw (scaled, crc_bit-shift x (2 ^ n * h)) (crc_bits-shift n (crc_bit x) h)

crc_bits-add : (m n x : ℕ) → crc_bits (m + n) x ≡ crc_bits n (crc_bits m x)
unfolding crc_bits
crc_bits-add zero n x = let none : 0 + n ≡ n = omega arith in rw none refl
crc_bits-add (suc m) n x =
    let next : suc m + n ≡ suc (m + n) = omega arith in rw next (crc_bits-add m n (crc_bit x))

-- The number that the bytes of a message are, the first one in the lowest place.
number : List ℕ → ℕ
number [] = 0
number (b ∷ bs) = b + 2 ^ 8 * number bs

-- The bytes of a message need not be mixed in one by one.
crc_bytes-number :
    (crc : ℕ) (bs : List ℕ)
    → All IsByte bs
    → crc_bytes crc bs ≡ crc_bits (8 * length bs) (bit_xor crc (number bs))
unfolding crc_bytes number
crc_bytes-number crc [] bytes = sym (xor-zero crc)
crc_bytes-number crc (b ∷ bs) bytes =
    let shifted = bit_xor (bit_xor crc b) (2 ^ 8 * number bs) in
    let rounds : 8 + 8 * length bs ≡ 8 * suc (length bs) = omega arith in
    crc_bytes-number (crc_bits 8 (bit_xor crc b)) bs bytes.1
    ∙ ap (crc_bits (8 * length bs)) (sym (crc_bits-shift 8 (bit_xor crc b) (number bs)))
    ∙ sym (crc_bits-add 8 (8 * length bs) shifted)
    ∙ ap (λ (k : ℕ). crc_bits k shifted) rounds
    ∙ ap (crc_bits (8 * suc (length bs)))
        (xor_assoc crc b (2 ^ 8 * number bs) ∙ ap (bit_xor crc) (xor_sum 8 (number bs) b bytes.0))

-- The four bytes of a word, the lowest one first.
abbrev pub le_bytes : ℕ → List ℕ
le_bytes v = (v % 256) ∷ (v / 2 ^ 8 % 256) ∷ (v / 2 ^ 16 % 256) ∷ (v / 2 ^ 24 % 256) ∷ []

number-le_bytes : (v : ℕ) → IsWord v → number (le_bytes v) ≡ v
unfolding number
number-le_bytes v h = omega arith

residue_rounds : crc_bits 32 0xFFFFFFFF ≡ 0xDEBB20E3
unfolding crc_bits crc_bit
residue_rounds = refl

-- A message of bytes with its own checksum behind it, the lowest byte first, has the checksum
-- 0x2144DF1C, whatever the message is.
pub crc32-residue :
    (message : List ℕ)
    → All IsByte message
    → let whole = message ++ le_bytes (zigbee_crc32 message (length message)) in
      zigbee_crc32 whole (length whole) ≡ 0x2144DF1C
unfolding zigbee_crc32 zigbee_crc32_update
crc32-residue message bytes =
    let register = crc_bytes 0xFFFFFFFF message in
    let check = bit_xor register 0xFFFFFFFF in
    let word : IsWord check =
      xor-lt 32 register 0xFFFFFFFF (crc_bytes-IsWord 0xFFFFFFFF message (omega arith) bytes)
        (omega arith) in
    let mixed : bit_xor register check ≡ 0xFFFFFFFF =
      ap (bit_xor register) (xor_comm register 0xFFFFFFFF)
      ∙ xor_comm register (bit_xor 0xFFFFFFFF register)
      ∙ xor_cancel 0xFFFFFFFF register in
    let left : crc_bytes 0xFFFFFFFF (message ++ le_bytes check) ≡ 0xDEBB20E3 =
      crc_bytes-append 0xFFFFFFFF message (le_bytes check)
      ∙ crc_bytes-number register (le_bytes check)
          (omega arith, (omega arith, (omega arith, (omega arith, tt))))
      ∙ ap (λ (n : ℕ). crc_bits 32 (bit_xor register n)) (number-le_bytes check word)
      ∙ ap (crc_bits 32) mixed
      ∙ residue_rounds in
    rw (take-length message, take-length (message ++ le_bytes check), left) refl
