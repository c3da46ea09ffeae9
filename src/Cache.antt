-- ===== src/Cache.antt =====
-- The persisted metadata records: components/zigbee_gateway/zigbee_metadata_cache.h.
pub mod Records
pub mod Text
pub mod Operations
pub mod Validity
pub mod History
mod Tests
