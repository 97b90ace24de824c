-- ===== src/Hosting/ProcessHost.antt =====
-- src/hosting/process-example-agent-host.provider.ts: how an agent is hosted in a process of its own.
-- `attach` waits for a token, so it is two steps: up to the request, and from the token on.
pub mod Port
pub mod Payload
pub mod Attach
pub mod Starting
mod Tests
pub mod Laws
pub mod Launched
