-- ===== src/Compiler.antt =====
-- src/compiler/: from a scenario and a request to what is launched.
mod Tests
pub mod ScenarioRef
pub mod Merge
pub mod Substitute
pub mod Outcome
pub mod Settings
pub mod Compile
