-- ===== src/Ti/Accepted.antt =====
-- Which images pass, byte by byte.
use mathlib.Core.Option.{none, some}
use zigbee_gateway.Common.{
  ℕ, zero, suc, ◌+◌, ◌*◌, ◌/◌, ◌%◌, ◌^◌, ◌≤◌, ◌<◌, ◌≡◌, ◌≢◌, ◌↔◌, refl, sym, ◌∙◌, arith, bit_and,
  Bool, not, List, [], ◌∷◌, ◌==◌, u8, u32, get_or, length, All, IsByte,
}
use zigbee_gateway.Common.Bits.{and_255, and_1, or_sum, or_comm}
use zigbee_gateway.Ti.Image.{
  zigbee_ti_decode_u32_le, ZigbeeTiCcfg, no_error, invalid_size, word_at, parsed_ccfg, check_ccfg,
  zigbee_ti_validate_ccfg,
}

decode-sum :
    (a b c d : ℕ) (rest : List ℕ)
    → IsByte a
    → IsByte b
    → IsByte c
    → IsByte d
    → zigbee_ti_decode_u32_le (a ∷ b ∷ c ∷ d ∷ rest) ≡ a + b * 2 ^ 8 + c * 2 ^ 16 + d * 2 ^ 24
unfolding zigbee_ti_decode_u32_le
decode-sum a b c d rest ha hb hc hd =
    let e = or_sum 8 b (b * 2 ^ 8) a refl (omega arith) in
    let e' = or_sum 16 c (c * 2 ^ 16) (b * 2 ^ 8 + a) refl (omega arith) in
    let e'' = or_sum 24 d (d * 2 ^ 24) (c * 2 ^ 16 + (b * 2 ^ 8 + a)) refl (omega arith) in
    rw
      (
        fits (b * 2 ^ 8) (omega arith),
        fits (c * 2 ^ 16) (omega arith),
        fits (d * 2 ^ 24) (omega arith),
        or_comm a (b * 2 ^ 8),
        e,
        or_comm (b * 2 ^ 8 + a) (c * 2 ^ 16),
        e',
        or_comm (c * 2 ^ 16 + (b * 2 ^ 8 + a)) (d * 2 ^ 24),
        e'',
      )
      (omega arith)
  where
    fits : (x : ℕ) → x < 2 ^ 32 → u32 x ≡ x
    fits x h = omega arith

-- A word of the tail from its four bytes.
pub word_at-sum :
    (tail : List ℕ) (i : ℕ)
    → i + 4 ≤ length tail
    → All IsByte tail
    → word_at tail i
      ≡ get_or tail i 0
        + get_or tail (suc i) 0 * 2 ^ 8
        + get_or tail (suc (suc i)) 0 * 2 ^ 16
        + get_or tail (suc (suc (suc i))) 0 * 2 ^ 24
word_at-sum (a ∷ b ∷ c ∷ d ∷ rest) zero h bytes =
    decode-sum a b c d rest bytes.0 bytes.1.0 bytes.1.1.0 bytes.1.1.1.0
word_at-sum (a ∷ b ∷ c ∷ []) zero h bytes = absurd (omega arith)
word_at-sum (a ∷ b ∷ []) zero h bytes = absurd (omega arith)
word_at-sum (a ∷ []) zero h bytes = absurd (omega arith)
word_at-sum [] zero h bytes = absurd (omega arith)
word_at-sum [] (suc i) h bytes = absurd (omega arith)
word_at-sum (x ∷ xs) (suc i) h bytes = word_at-sum xs i (omega arith) bytes.1

byte_at : (tail : List ℕ) (i : ℕ) → All IsByte tail → get_or tail i 0 < 256
byte_at [] i bytes = omega arith
byte_at (x ∷ xs) zero bytes = bytes.0
byte_at (x ∷ xs) (suc i) bytes = byte_at xs i bytes.1

-- The checks on a parsed record, at four protection words.
check_ccfg_iff :
    (ccfg : ZigbeeTiCcfg) (p q r s dio : ℕ) (level : Bool) (vector : ℕ)
    → ccfg.protection ≡ p ∷ q ∷ r ∷ s ∷ []
    → (check_ccfg ccfg dio level vector ≡ no_error) ↔ (
        (ccfg.bootloader_enable ≡ 0xC5)
        × (ccfg.backdoor_enable ≡ 0xC5)
        × (ccfg.backdoor_dio ≡ dio)
        × (ccfg.backdoor_active_high ≡ level)
        × (bit_and ccfg.erase_conf 0x01 ≢ 0)
        × (ccfg.image_valid ≡ vector)
        × (p ≡ 0xFFFFFFFF)
        × (q ≡ 0xFFFFFFFF)
        × (r ≡ 0xFFFFFFFF)
        × (s ≡ 0xFFFFFFFF))
unfolding check_ccfg
check_ccfg_iff ccfg p q r s dio level vector e = rw e (ground arith)

-- What the boot ROM is to find in the last 88 bytes of an image: the two enable bytes, the wiring
-- of the backdoor pin, bank erase allowed, the vector address, and 16 bytes of open protection.
pub record IsBootable (tail : List ℕ) (dio : ℕ) (level : Bool) (vector : ℕ) : Type 0 where
  pub bootloader : get_or tail 51 0 ≡ 0xC5
  pub backdoor : get_or tail 48 0 ≡ 0xC5
  pub backdoor_dio : get_or tail 49 0 ≡ dio
  pub backdoor_level : (get_or tail 50 0 % 2 == 1) ≡ level
  pub bank_erase : get_or tail 52 0 % 2 ≡ 1
  pub image_vector :
      get_or tail 68 0
        + get_or tail 69 0 * 2 ^ 8
        + get_or tail 70 0 * 2 ^ 16
        + get_or tail 71 0 * 2 ^ 24
      ≡ vector
  pub unprotected :
      All
        (λ i. get_or tail i 0 ≡ 0xFF)
        (72 ∷ 73 ∷ 74 ∷ 75 ∷ 76 ∷ 77 ∷ 78 ∷ 79 ∷ 80 ∷ 81 ∷ 82 ∷ 83 ∷ 84 ∷ 85 ∷ 86 ∷ 87 ∷ [])

module _ (tail : List ℕ) (size : length tail ≡ 88) (bytes : All IsByte tail) where
  four_ones :
      (i : ℕ)
      → i + 4 ≤ 88
      → (word_at tail i ≡ 0xFFFFFFFF) ↔ (
          (get_or tail i 0 ≡ 0xFF)
          × (get_or tail (suc i) 0 ≡ 0xFF)
          × (get_or tail (suc (suc i)) 0 ≡ 0xFF)
          × (get_or tail (suc (suc (suc i))) 0 ≡ 0xFF))
  four_ones i h =
      let e = word_at-sum tail i (omega arith) bytes in
      let a = byte_at tail i bytes in
      let b = byte_at tail (suc i) bytes in
      let c = byte_at tail (suc (suc i)) bytes in
      let d = byte_at tail (suc (suc (suc i))) bytes in (λ f. omega arith, λ f. omega arith)

  level_byte : not (bit_and (word_at tail 48 / 2 ^ 16) 0x01 == 0) ≡ (get_or tail 50 0 % 2 == 1)
  level_byte = ground (
    arith,
    and_1 (word_at tail 48 / 2 ^ 16),
    word_at-sum tail 48 (omega arith) bytes,
    byte_at tail 48 bytes,
    byte_at tail 49 bytes,
    byte_at tail 50 bytes,
    byte_at tail 51 bytes,
  )

  enable_bytes :
      (u8 (bit_and (word_at tail 48 / 2 ^ 24) 0xFF) ≡ get_or tail 51 0)
      × (u8 (bit_and (word_at tail 48) 0xFF) ≡ get_or tail 48 0)
      × (u8 (bit_and (word_at tail 48 / 2 ^ 8) 0xFF) ≡ get_or tail 49 0)
  enable_bytes =
      let e = word_at-sum tail 48 (omega arith) bytes in
      let a = byte_at tail 48 bytes in
      let b = byte_at tail 49 bytes in
      let c = byte_at tail 50 bytes in
      let d = byte_at tail 51 bytes in
      (
        omega (arith, and_255 (word_at tail 48 / 2 ^ 24)),
        omega (arith, and_255 (word_at tail 48)),
        omega (arith, and_255 (word_at tail 48 / 2 ^ 8)),
      )

  erase_byte : (bit_and (word_at tail 52) 0x01 ≢ 0) ↔ (get_or tail 52 0 % 2 ≡ 1)
  erase_byte =
      let e = word_at-sum tail 52 (omega arith) bytes in
      let a = and_1 (word_at tail 52) in (λ f. omega arith, λ f. omega arith)

  -- A tail of 88 bytes passes the validation exactly if it is bootable with the gateway's wiring
  -- and at the expected address.
  pub validate_ccfg_iff :
      (dio : ℕ) (level : Bool) (vector : ℕ)
      → ((zigbee_ti_validate_ccfg (some tail) 88 dio level vector).0 ≡ no_error)
        ↔ IsBootable tail dio level vector
  unfolding zigbee_ti_validate_ccfg
  validate_ccfg_iff dio level vector =
      let checks =
        check_ccfg_iff (parsed_ccfg tail) (word_at tail 72) (word_at tail 76) (word_at tail 80)
          (word_at tail 84) dio level vector refl in
      (
        (λ passes.
            let f = checks.0 passes in
            let p = (four_ones 72 (omega arith)).0 f.6 in
            let q = (four_ones 76 (omega arith)).0 f.7 in
            let r = (four_ones 80 (omega arith)).0 f.8 in
            let s = (four_ones 84 (omega arith)).0 f.9 in
            record {
              bootloader = sym enable_bytes.0 ∙ f.0;
              backdoor = sym enable_bytes.1 ∙ f.1;
              backdoor_dio = sym enable_bytes.2 ∙ f.2;
              backdoor_level = sym level_byte ∙ f.3;
              bank_erase = erase_byte.0 f.4;
              image_vector = sym (word_at-sum tail 68 (omega arith) bytes) ∙ f.5;
              unprotected = (
                p.0,
                (
                  p.1,
                  (
                    p.2,
                    (
                      p.3,
                      (
                        q.0,
                        (
                          q.1,
                          (q.2, (q.3, (r.0, (r.1, (r.2, (r.3, (s.0, (s.1, (s.2, (s.3, tt)))))))))),
                        ),
                      ),
                    ),
                  ),
                ),
              );
            }),
        (λ b. checks.1 (
          enable_bytes.0 ∙ b.bootloader,
          enable_bytes.1 ∙ b.backdoor,
          enable_bytes.2 ∙ b.backdoor_dio,
          level_byte ∙ b.backdoor_level,
          erase_byte.1 b.bank_erase,
          word_at-sum tail 68 (omega arith) bytes ∙ b.image_vector,
          (four_ones 72 (omega arith)).1 (omega (arith, b.unprotected)),
          (four_ones 76 (omega arith)).1 (omega (arith, b.unprotected)),
          (four_ones 80 (omega arith)).1 (omega (arith, b.unprotected)),
          (four_ones 84 (omega arith)).1 (omega (arith, b.unprotected)),
        )),
      )

-- A tail of any other length, and a null pointer, are refused for their size.
pub validate_ccfg-invalid_size :
    (tail : List ℕ) (count dio : ℕ) (level : Bool) (vector : ℕ)
    → count ≢ 88
    → ((zigbee_ti_validate_ccfg (some tail) count dio level vector).0 ≡ invalid_size)
      × ((zigbee_ti_validate_ccfg none count dio level vector).0 ≡ invalid_size)
unfolding zigbee_ti_validate_ccfg
validate_ccfg-invalid_size tail count dio level vector h = ground arith
