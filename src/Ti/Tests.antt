-- ===== src/Ti/Tests.antt =====
-- The validation of a tail that boots.
use mathlib.Core.Option.{none, some}
use zigbee_gateway.Common.{
  ℕ, ◌≡◌, ◌↔◌, refl, arith, true, List, [], ◌∷◌, ◌++◌, replicate, All, IsByte,
}
use zigbee_gateway.Ti.Image.{
  no_error, invalid_size, zigbee_ti_validate_ccfg, zigbee_ti_decode_u32_le,
}
use zigbee_gateway.Ti.Accepted.{IsBootable, validate_ccfg_iff, validate_ccfg-invalid_size}

-- Pin 13, active high, at the vector address 0.
abbrev tail : List ℕ
tail =
    replicate 48 0xFF
    ++ (0xC5 ∷ 13 ∷ 0xFF ∷ 0xC5 ∷ [] ++ (replicate 16 0xFF ++ (replicate 4 0 ++ replicate 16 0xFF)))

tail-bytes : All IsByte tail
tail-bytes = ground arith

tail_passes : (zigbee_ti_validate_ccfg (some tail) 88 13 true 0).0 ≡ no_error
unfolding zigbee_ti_validate_ccfg zigbee_ti_decode_u32_le
tail_passes = refl

validate_ccfg_iff_example :
    ((zigbee_ti_validate_ccfg (some tail) 88 13 true 0).0 ≡ no_error) ↔ IsBootable tail 13 true 0
validate_ccfg_iff_example = validate_ccfg_iff tail refl tail-bytes 13 true 0

validate_ccfg-invalid_size_example :
    ((zigbee_ti_validate_ccfg (some tail) 87 13 true 0).0 ≡ invalid_size)
    × ((zigbee_ti_validate_ccfg none 87 13 true 0).0 ≡ invalid_size)
validate_ccfg-invalid_size_example = validate_ccfg-invalid_size tail 87 13 true 0 (λ e. omega arith)
