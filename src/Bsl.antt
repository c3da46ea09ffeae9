-- ===== src/Bsl.antt =====
-- The TI ROM bootloader's frames: components/zigbee_gateway/zigbee_bsl_frame.h.
pub mod Response
pub mod Words
pub mod Frame
pub mod Check
mod Tests
