-- ===== src/Auth.antt =====
-- services/auth: e-mail configuration and delivery, passwords, local accounts, invitations and
-- password recovery.
pub mod Settings
pub mod Limits
pub mod Delivery
pub mod Password
pub mod LocalAuth
pub mod Lifecycle
