-- ===== src/Auth/Lifecycle.antt =====
-- services/auth/account_lifecycle.py: its helpers (Core), the operations that issue (Issue,
-- Recovery) and redeem (Redeem) a token, and what they guarantee.
pub mod Core
pub mod Issue
pub mod Recovery
pub mod Redeem
pub mod Revocation
pub mod Issuance
pub mod Single
pub mod RateLimit
pub mod Redemption
