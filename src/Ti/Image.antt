-- ===== src/Ti/Image.antt =====
-- zigbee_ti_image.h: the customer configuration (CCFG) at the end of a radio image.
use mathlib.Core.Option.{Option, none, some}
use Prim.Native.String.{String}
use zigbee_gateway.Common.{
  ℕ, ◌+◌, bit_and, bit_or, Bool, not, ◌&&◌, List, [], ◌∷◌, ◌==◌, if◌then◌else◌, same_bool, u8, u32,
  ◌<<◌, ◌>>◌, get_or, drop,
}

abbrev pub zigbee_ti_ccfg_size : ℕ
zigbee_ti_ccfg_size = 88

abbrev pub zigbee_ti_ccfg_mode_conf_offset : ℕ
zigbee_ti_ccfg_mode_conf_offset = 12

abbrev pub zigbee_ti_ccfg_bl_config_offset : ℕ
zigbee_ti_ccfg_bl_config_offset = 48

abbrev pub zigbee_ti_ccfg_erase_conf_offset : ℕ
zigbee_ti_ccfg_erase_conf_offset = 52

abbrev pub zigbee_ti_ccfg_image_valid_offset : ℕ
zigbee_ti_ccfg_image_valid_offset = 68

abbrev pub zigbee_ti_ccfg_protection_offset : ℕ
zigbee_ti_ccfg_protection_offset = 72

abbrev pub zigbee_ti_ccfg_enable_value : ℕ
zigbee_ti_ccfg_enable_value = 0xC5

unfoldable pub zigbee_ti_image_size_is_compatible : ℕ → ℕ → Bool
zigbee_ti_image_size_is_compatible image_size radio_size =
    not (image_size == 0) && (image_size == radio_size && bit_and image_size 0x03 == 0)

-- The list starts at the first of the four bytes.
unfoldable pub zigbee_ti_decode_u32_le : List ℕ → ℕ
zigbee_ti_decode_u32_le bytes =
    bit_or
      (bit_or (bit_or (get_or bytes 0 0) (u32 (get_or bytes 1 0 << 8)))
        (u32 (get_or bytes 2 0 << 16)))
      (u32 (get_or bytes 3 0 << 24))

pub record ZigbeeTiCcfg : Type 0 where
  pub mode_conf : ℕ
  pub bl_config : ℕ
  pub erase_conf : ℕ
  pub image_valid : ℕ
  pub protection : List ℕ
  pub bootloader_enable : ℕ
  pub backdoor_active_high : Bool
  pub backdoor_dio : ℕ
  pub backdoor_enable : ℕ

-- `no_error` is NONE.
pub data ZigbeeTiCcfgError : Type 0 where
  no_error invalid_size bootloader_disabled backdoor_disabled : ZigbeeTiCcfgError
  backdoor_dio_mismatch backdoor_level_mismatch bank_erase_disabled : ZigbeeTiCcfgError
  invalid_image_vector flash_protected : ZigbeeTiCcfgError

unfoldable pub zigbee_ti_ccfg_error_name : ZigbeeTiCcfgError → String
zigbee_ti_ccfg_error_name no_error = "none"
zigbee_ti_ccfg_error_name invalid_size = "image is too small to contain TI CCFG"
zigbee_ti_ccfg_error_name bootloader_disabled = "ROM serial bootloader is disabled"
zigbee_ti_ccfg_error_name backdoor_disabled = "ROM serial bootloader backdoor is disabled"
zigbee_ti_ccfg_error_name backdoor_dio_mismatch =
    "bootloader backdoor DIO does not match the gateway wiring"
zigbee_ti_ccfg_error_name backdoor_level_mismatch =
    "bootloader backdoor level does not match the gateway wiring"
zigbee_ti_ccfg_error_name bank_erase_disabled = "ROM serial bootloader bank erase is disabled"
zigbee_ti_ccfg_error_name invalid_image_vector =
    "image vector address does not match the programmed range"
zigbee_ti_ccfg_error_name flash_protected = "image enables flash write protection"

abbrev pub word_at : List ℕ → ℕ → ℕ
word_at image_tail offset = zigbee_ti_decode_u32_le (drop offset image_tail)

-- The record that a parse fills, from its words.
unfoldable pub parsed_ccfg : List ℕ → ZigbeeTiCcfg
parsed_ccfg image_tail =
    let bl_config = word_at image_tail zigbee_ti_ccfg_bl_config_offset in
    record {
      mode_conf = word_at image_tail zigbee_ti_ccfg_mode_conf_offset;
      bl_config = bl_config;
      erase_conf = word_at image_tail zigbee_ti_ccfg_erase_conf_offset;
      image_valid = word_at image_tail zigbee_ti_ccfg_image_valid_offset;
      protection =
          word_at image_tail (zigbee_ti_ccfg_protection_offset + 0)
          ∷ word_at image_tail (zigbee_ti_ccfg_protection_offset + 4)
          ∷ word_at image_tail (zigbee_ti_ccfg_protection_offset + 8)
          ∷ word_at image_tail (zigbee_ti_ccfg_protection_offset + 12)
          ∷ [];
      bootloader_enable = u8 (bit_and (bl_config >> 24) 0xFF);
      backdoor_active_high = not (bit_and (bl_config >> 16) 0x01 == 0);
      backdoor_dio = u8 (bit_and (bl_config >> 8) 0xFF);
      backdoor_enable = u8 (bit_and bl_config 0xFF);
    }

-- The tail is `none` for a null pointer, and so is the result for a refusal.
unfoldable pub zigbee_ti_parse_ccfg : Option (List ℕ) → ℕ → Option ZigbeeTiCcfg
unfolding parsed_ccfg
zigbee_ti_parse_ccfg none length = none
zigbee_ti_parse_ccfg (some image_tail) length =
    if not (length == zigbee_ti_ccfg_size) then none else some (parsed_ccfg image_tail)

-- The loop over the protection words.
unfoldable pub check_protection : List ℕ → ZigbeeTiCcfgError
check_protection [] = no_error
check_protection (word ∷ words) =
    if not (word == 0xFFFFFFFF) then flash_protected else check_protection words

unfoldable pub check_ccfg : ZigbeeTiCcfg → ℕ → Bool → ℕ → ZigbeeTiCcfgError
unfolding check_protection
check_ccfg ccfg expected_backdoor_dio expected_active_high expected_image_vector =
    if not (ccfg.bootloader_enable == zigbee_ti_ccfg_enable_value)
    then bootloader_disabled
    else if not (ccfg.backdoor_enable == zigbee_ti_ccfg_enable_value)
    then backdoor_disabled
    else if not (ccfg.backdoor_dio == expected_backdoor_dio)
    then backdoor_dio_mismatch
    else if not (same_bool ccfg.backdoor_active_high expected_active_high)
    then backdoor_level_mismatch
    else if bit_and ccfg.erase_conf 0x01 == 0
    then bank_erase_disabled
    else if not (ccfg.image_valid == expected_image_vector)
    then invalid_image_vector
    else check_protection ccfg.protection

-- The second result is what `*parsed` is given, if anything.
unfoldable pub zigbee_ti_validate_ccfg :
    Option (List ℕ) → ℕ → ℕ → Bool → ℕ → ZigbeeTiCcfgError × Option ZigbeeTiCcfg
unfolding zigbee_ti_parse_ccfg check_ccfg
zigbee_ti_validate_ccfg image_tail length expected_backdoor_dio expected_active_high
      expected_image_vector =
    elim (zigbee_ti_parse_ccfg image_tail length) [
      | none ↦ (invalid_size, none)
      | some ccfg ↦ (
        check_ccfg ccfg expected_backdoor_dio expected_active_high expected_image_vector,
        some ccfg,
      )
    ]
