-- ===== src/Workflows.antt =====
-- services/workflows: what user-authored workflows may refer to.
pub mod Policy
pub mod Credentials
