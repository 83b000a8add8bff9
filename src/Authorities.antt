-- ===== src/Authorities.antt =====
-- src/modules/authorities: delegated authorities.
pub mod Types
pub mod Repo
pub mod Claims
pub mod Validate
pub mod Conditions
pub mod Issue
pub mod Revoke
pub mod Lifecycle
pub mod Listing
