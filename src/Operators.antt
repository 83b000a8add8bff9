-- ===== src/Operators.antt =====
-- The services of operators: src/modules/operatorAgents, operatorSafetyPolicies, oauthScopes and
-- operatorAudit.
pub mod Audited
pub mod Agents
pub mod Policies
pub mod Catalogue
pub mod AuditList
pub mod Suspension
pub mod Ceilings
pub mod Uniqueness
