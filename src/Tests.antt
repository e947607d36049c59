-- ===== src/Tests.antt =====
-- The theorems at concrete inputs, and runs of the definitions.
pub mod Fixtures
pub mod Commits
pub mod Robots
pub mod Jobs
pub mod Topics
pub mod Pipeline
pub mod Setup
pub mod Crawl
pub mod Codec
pub mod Exchange
pub mod Seeds
pub mod Found
