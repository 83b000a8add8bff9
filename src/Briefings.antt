-- ===== src/Briefings.antt =====
-- src/modules/briefings: what a customer asks an app's agents to look out for.
pub mod Repo
pub mod Service
pub mod Revocation
