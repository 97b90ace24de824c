-- ===== src/Scenario.antt =====
-- The scripts of scripts/scenario/ for those who write scenarios.
pub mod Ending
pub mod Report
pub mod Placeholders
pub mod Validate
pub mod Lint
