-- ===== src/HarnessCheck.antt =====
-- scripts/harness-check.py, which follows the sessions of an agent harness and judges what they did.
pub mod Values
pub mod Tools
pub mod Follow
pub mod Briefs
pub mod Events
pub mod Records
pub mod Review
pub mod Session
pub mod Runner
pub mod Frames
pub mod Progress
pub mod Approvals
mod Tests
pub mod Questions
pub mod Reviewers
