-- ===== src/Znp.antt =====
-- Passive observation of the ZNP stream: components/zigbee_gateway/zigbee_znp_observer.h, the frame
-- of protocol.h and the sniffer of zigbee_gateway.cpp.
pub mod Frame
pub mod Observer
pub mod Bounds
pub mod Sniffer
pub mod Queue
pub mod Assembly
pub mod Newest
pub mod Observation
mod Tests
