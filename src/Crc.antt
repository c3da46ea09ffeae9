-- ===== src/Crc.antt =====
-- The CRC-32 of components/zigbee_gateway/zigbee_crc32.h.
pub mod Update
pub mod Detection
pub mod Residue
mod Tests
