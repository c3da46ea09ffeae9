-- ===== src/Server.antt =====
-- The TCP server of components/zigbee_gateway/zigbee_tcp_server.h and zigbee_tcp_server.cpp.
pub mod Client
pub mod Record
pub mod Maintenance
pub mod Handlers
pub mod Loop
pub mod Agreement
pub mod Steps
pub mod Run
mod Tests
