-- ===== src/OpenCode.antt =====
-- scripts/opencode-check.py, the acceptance check of an OpenCode client.
pub mod Observer
pub mod Forward
pub mod Reports
mod Tests
