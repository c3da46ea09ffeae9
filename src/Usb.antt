-- ===== src/Usb.antt =====
-- The software bridge between USB and the radio: components/zigbee_gateway/zigbee_usb_bridge.cpp.
pub mod Bridge
pub mod Ownership
mod Tests
