-- ===== src/Stream.antt =====
-- The duplex byte pump of components/zigbee_gateway/zigbee_stream_pump.h.
pub mod Endpoint
pub mod Pump
pub mod Relay
pub mod Delivery
pub mod Total
pub mod Counting
pub mod Adapters
pub mod Sockets
mod Tests
