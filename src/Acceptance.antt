-- ===== src/Acceptance.antt =====
-- scripts/acceptance.py, the acceptance and soak runner.
pub mod Endpoint
pub mod Jobs
pub mod Measurements
pub mod Multipart
pub mod Pattern
pub mod Runner
mod Samples
pub mod Stream
pub mod Transfer
