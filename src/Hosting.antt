-- ===== src/Hosting.antt =====
-- src/hosting/: the processes of the agents.
pub mod Supervisor
pub mod Contracts
pub mod Adapters
pub mod AdapterRegistry
pub mod ProcessHost
pub mod Service
mod Tests
