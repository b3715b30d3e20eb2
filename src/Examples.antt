-- ===== src/Examples.antt =====
-- Runs of the model at concrete inputs, and the theorems applied to them.
mod Sessions
mod Lanes
mod Limits
pub mod Panes
mod Bridges
mod Caches
mod Routes
mod Wire
mod Faults
mod Targets
mod Proxies
mod Metrics
mod Clients
mod Agents
mod Arguments
mod Relays
