-- ===== src/Deployment.antt =====
-- services/deployment: the names under which a deployed model is exposed, and the policy of the
-- administrator for them.
pub mod Hostname
pub mod Policy
pub mod Conflicts
pub mod Wildcards
pub mod Naming
pub mod Access
