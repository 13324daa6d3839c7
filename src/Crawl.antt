-- ===== src/Crawl.antt =====
-- The crawler: src/ingestion.
pub mod Address
pub mod Robots
pub mod Fetch
pub mod Job
mod Tests
