-- ===== src/Policy.antt =====
-- The policies of a decision: their files, their registration with the runtime, and the strategy
-- that the coordinator applies to the specialists' signals.
pub mod Number
pub mod Strategy
pub mod Definition
pub mod Loader
pub mod Registrar
mod Tests
