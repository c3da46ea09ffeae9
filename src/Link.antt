-- ===== src/Link.antt =====
-- The exchanges with the radio of components/zigbee_gateway/protocol.h.
pub mod Port
pub mod Znp
pub mod Line
pub mod Frames
pub mod Packets
pub mod Timeout
pub mod Loader
pub mod Commands
pub mod Memory
pub mod Reads
mod Tests
