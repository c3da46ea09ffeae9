-- ===== src/Tcp.antt =====
-- The socket-independent transport policy of components/zigbee_gateway/zigbee_tcp_state.h.
pub mod State
pub mod Names
pub mod Run
pub mod Valid
pub mod Rendezvous
pub mod Accounts
mod Tests
