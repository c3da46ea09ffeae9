-- ===== src/Serial.antt =====
-- Ownership of the radio UART: components/zigbee_gateway/zigbee_serial_owner.h and zigbee_serial.h.
pub mod Owner
pub mod Uart
pub mod Gate
pub mod Exclusion
pub mod Drain
mod Tests
