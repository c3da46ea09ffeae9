-- ===== src/Ti.antt =====
-- The boot configuration of a TI radio image: components/zigbee_gateway/zigbee_ti_image.h.
pub mod Image
pub mod Accepted
mod Tests
