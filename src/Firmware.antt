-- ===== src/Firmware.antt =====
-- The firmware updates of components/zigbee_gateway/zigbee_firmware_manager.h and
-- zigbee_firmware_manager.cpp.
pub mod Types
pub mod Parts
pub mod Manager
pub mod Staging
pub mod Download
pub mod Checking
pub mod Update
pub mod Verified
pub mod Passing
pub mod Advance
pub mod Handling
pub mod Radio
pub mod Run
pub mod Loading
pub mod Safety
pub mod History
pub mod Reached
mod Tests
