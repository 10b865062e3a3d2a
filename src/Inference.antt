-- ===== src/Inference.antt =====
-- services/triton/models.py: inference through the backend.
pub mod Generate
pub mod Defaults
pub mod Triton
pub mod Proxy
pub mod Sent
pub mod Costs
pub mod Relay
pub mod Snapshot
pub mod Failures
pub mod Refusals
