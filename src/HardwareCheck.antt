-- ===== src/HardwareCheck.antt =====
-- scripts/hardware-check.py, the check of a real board through the daemon's management API.
pub mod Judge
pub mod Bench
pub mod Configuration
pub mod Maintenance
pub mod Soak
pub mod Run
pub mod Plan
pub mod Quiet
pub mod Carries
pub mod Wait
pub mod Rounds
mod Tests
