-- ===== src/Policy.antt =====
-- The small policy headers: zigbee_chip_layout.h, zigbee_firmware_target.h, zigbee_reset_policy.h
-- and zigbee_transport_mode.h of components/zigbee_gateway.
pub mod Layout
pub mod Transport
pub mod Role
mod Tests
