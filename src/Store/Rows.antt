-- ===== src/Store/Rows.antt =====
-- The row types: src/modules/*/repo.ts and src/db/schema.
use helpan_ai.Prelude.{ℕ, String, Bool, true, false, Option, List, ◌==◌}
use helpan_ai.Json.{Json}
use helpan_ai.Time.{Period, CivilDate}

pub data AgentStatus : Type 0 where
  active suspended retired : AgentStatus

pub data AgentClass : Type 0 where
  portfolio_app third_party_oauth internal_system : AgentClass

pub record AgentRow : Type 0 where
  pub id : String
  pub name : String
  pub agent_class : AgentClass
  pub owner_app_id : Option String
  pub third_party_oauth_client_id : Option String
  pub status : AgentStatus
  pub created_at : ℕ
  pub updated_at : ℕ
  pub suspended_at : Option ℕ
  pub retired_at : Option ℕ

pub record OauthScopeRow : Type 0 where
  pub id : String
  pub name : String
  pub description : String
  pub rail : String
  pub category : String
  pub default_grantable : Bool
  pub elevation_friction : String
  pub per_scope_amount_ceiling_minor : Option ℕ
  pub per_scope_period_ceiling_minor : Option ℕ
  pub per_scope_max_ttl_seconds : ℕ
  pub status : String
  pub created_at : ℕ
  pub updated_at : ℕ

-- One granted scope on an authority: `AuthorityScopeDto`, which is also `ClaimScope`.
pub record AuthorityScope : Type 0 where
  pub scope_id : String
  pub amount_limit_minor : Option ℕ
  pub per_period_limit_minor : Option ℕ
  pub period : Option Period
  pub category_whitelist : Option (List String)
  pub recipient_whitelist : Option (List String)

pub data AuthorityStatus : Type 0 where
  active expired revoked : AuthorityStatus

pub data RevocationReason : Type 0 where
  user_initiated operator_initiated account_suspended kyc_downgraded : RevocationReason
  cascade_user_deleted cascade_consent_revoked security_incident other : RevocationReason

pub record DelegatedAuthorityRow : Type 0 where
  pub id : String
  pub account_uuid : String
  pub agent_id : String
  pub scopes : List AuthorityScope
  pub status : AuthorityStatus
  pub step_up_jti : Option String
  pub issued_by_app_id : String
  pub issued_at : ℕ
  pub expires_at : ℕ
  pub revoked_at : Option ℕ
  pub revocation_reason : Option RevocationReason
  pub revocation_detail : Option String

-- Keyed by (authority_id, scope_id, period_window).
pub record AuthorityUsageRow : Type 0 where
  pub authority_id : String
  pub scope_id : String
  pub period_window : CivilDate
  pub cumulative_minor : ℕ
  pub call_count : ℕ
  pub last_used_at : ℕ

pub data ActionStatus : Type 0 where
  pending completed failed : ActionStatus

pub data ActionInitiatedBy : Type 0 where
  human agent system : ActionInitiatedBy

pub record ActionRow : Type 0 where
  pub id : String
  pub account_uuid : String
  pub agent_id : String
  pub delegated_authority_jti : Option String
  pub target_rail : String
  pub target_operation : String
  pub status : ActionStatus
  pub initiated_by : ActionInitiatedBy
  pub actor_type : Option String
  pub request_payload_redacted : Json
  pub result_redacted : Option Json
  pub error_code : Option String
  pub traceparent : Option String
  pub app_id : String
  pub app_correlation_id : Option String
  pub business_op_id : Option String
  pub idempotency_key : String
  pub created_at : ℕ
  pub completed_at : Option ℕ

pub record AuditLogRow : Type 0 where
  pub id : String
  pub app_id : Option String
  pub actor_type : String
  pub actor_id : String
  pub account_uuid : Option String
  pub action : String
  pub resource_type : Option String
  pub resource_id : Option String
  pub agent_id : Option String
  pub delegated_authority_jti : Option String
  pub target_rail : Option String
  pub target_operation : Option String
  pub business_op_id : Option String
  pub request_id : String
  pub traceparent : Option String
  pub outcome : String
  pub initiated_by : Option String
  pub detail : Option Json
  pub previous_hash : Option String
  pub entry_hash : String
  pub hash_version : ℕ
  pub created_at : ℕ

pub data OutboxStatus : Type 0 where
  pending delivered abandoned : OutboxStatus

pub record KafkaOutboxRow : Type 0 where
  pub id : String
  pub topic : String
  pub partition_key : String
  pub payload : Json
  pub headers : Option Json
  pub status : OutboxStatus
  pub attempts : ℕ
  pub next_attempt_at : ℕ
  pub delivered_at : Option ℕ
  pub last_error : Option String
  pub created_at : ℕ

-- `row.status === 'active'` and its like.
abbrev pub agent_is_active : AgentStatus → Bool
agent_is_active AgentStatus.active = true
agent_is_active _ = false

abbrev pub scope_is_active : OauthScopeRow → Bool
scope_is_active row = row.status == "active"

abbrev pub authority_is_active : AuthorityStatus → Bool
authority_is_active AuthorityStatus.active = true
authority_is_active _ = false

abbrev pub authority_is_revoked : AuthorityStatus → Bool
authority_is_revoked AuthorityStatus.revoked = true
authority_is_revoked _ = false

abbrev pub authority_is_expired : AuthorityStatus → Bool
authority_is_expired AuthorityStatus.expired = true
authority_is_expired _ = false

abbrev pub action_is_pending : ActionStatus → Bool
action_is_pending ActionStatus.pending = true
action_is_pending _ = false

abbrev pub outbox_is_pending : OutboxStatus → Bool
outbox_is_pending OutboxStatus.pending = true
outbox_is_pending _ = false
