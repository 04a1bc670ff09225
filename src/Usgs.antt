-- ===== src/Usgs.antt =====
-- The USGS ingestion service, services/ingestion-usgs/src/ingestion_usgs.
pub mod Parser
pub mod Event
pub mod Quality
pub mod Cursor
pub mod System
pub mod Producer
pub mod Poller
pub mod Client
pub mod Main
mod Tests
