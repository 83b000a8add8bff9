-- ===== src/Tests.antt =====
-- The components at concrete inputs: one service, one account, one agent and its authority.
pub mod Fixtures
pub mod Chain
pub mod Tokens
pub mod Grants
pub mod Revocations
pub mod Dispatches
pub mod Sweeps
pub mod Downgrades
pub mod Drains
pub mod Redactions
pub mod Hours
pub mod Ingestions
pub mod Deliveries
pub mod Pages
pub mod Matches
pub mod Operators
pub mod Catalogue
pub mod Outbound
pub mod Signatures
pub mod Probes
