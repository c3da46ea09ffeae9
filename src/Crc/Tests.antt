-- ===== src/Crc/Tests.antt =====
-- The checksum at concrete bytes.
use zigbee_gateway.Common.{ℕ, List, ◌≡◌, ◌≢◌, arith, [], ◌∷◌, ◌++◌, length}
use zigbee_gateway.Crc.Update.{zigbee_crc32}
use zigbee_gateway.Crc.Residue.{le_bytes, crc32-residue}
use zigbee_gateway.Crc.Detection.{crc32-damage}

abbrev message : List ℕ
message = 1 ∷ 2 ∷ 3 ∷ []

crc32-residue_example :
    let whole = message ++ le_bytes (zigbee_crc32 message (length message)) in
    zigbee_crc32 whole (length whole) ≡ 0x2144DF1C
crc32-residue_example = crc32-residue message (omega arith, (omega arith, (omega arith, tt)))

crc32-damage_example : zigbee_crc32 (1 ∷ 2 ∷ 3 ∷ []) 3 ≢ zigbee_crc32 (1 ∷ 6 ∷ 3 ∷ []) 3
crc32-damage_example =
    crc32-damage 2 6 (1 ∷ []) (3 ∷ []) (omega arith, tt) (omega arith) (omega arith)
      (omega arith, tt) (λ e. omega arith)
