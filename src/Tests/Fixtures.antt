-- ===== src/Tests/Fixtures.antt =====
-- The data of the tests.
use helpan_ai.Prelude.{ℕ, true, none, some, [], ◌∷◌}
use helpan_ai.Json.Stringify.{decimal}
use helpan_ai.Time.{Period}
use helpan_ai.World.{World}
use helpan_ai.Store.{Db, empty_db}
use helpan_ai.Store.Rows.{
  AuditLogRow, AgentRow, AgentStatus, AgentClass, OauthScopeRow, AuthorityScope, RevocationReason,
}
use helpan_ai.Authorities.Types.{AuthorityAuditContext, Caller}
use helpan_ai.Authorities.Conditions.{IssueAuthorityArgs, step_up_ok}
use helpan_ai.Authorities.Issue.{IssuanceDeps, signed}
use helpan_ai.Authorities.Revoke.{RevokeAuthorityArgs}

-- A digest that tells the texts of these tests apart.
abbrev pub plain_world : World
plain_world = record { ulid = decimal; sha256 = λ s. s; jsonb = λ d. d }

-- Migration 0001.
abbrev pub genesis_row : AuditLogRow
genesis_row = record {
  id = "01HELPAN0AUDITGENESIS0000000";
  app_id = none;
  actor_type = "system";
  actor_id = "helpan-ai-rail";
  account_uuid = none;
  action = "audit_log.genesis";
  resource_type = none;
  resource_id = none;
  agent_id = none;
  delegated_authority_jti = none;
  target_rail = none;
  target_operation = none;
  business_op_id = none;
  request_id = "01HELPAN0AUDITGENESIS0000000";
  traceparent = none;
  outcome = "success";
  initiated_by = none;
  detail = none;
  previous_hash = none;
  entry_hash = "helpan-ai-genesis";
  hash_version = 1;
  created_at = 5;
}

abbrev pub genesis_db : Db
genesis_db = record empty_db { audit_log = genesis_row ∷ [] }

abbrev pub planner : AgentRow
planner = record {
  id = "agt_planner";
  name = "Planner";
  agent_class = AgentClass.portfolio_app;
  owner_app_id = some "app_planner";
  third_party_oauth_client_id = none;
  status = AgentStatus.active;
  created_at = 5;
  updated_at = 5;
  suspended_at = none;
  retired_at = none;
}

abbrev pub transfer_row : OauthScopeRow
transfer_row = record {
  id = "pay.transfer";
  name = "Transfer";
  description = "Sends money";
  rail = "kipkiren_pay";
  category = "write_money";
  default_grantable = true;
  elevation_friction = "high";
  per_scope_amount_ceiling_minor = some 1000;
  per_scope_period_ceiling_minor = some 5000;
  per_scope_max_ttl_seconds = 3600;
  status = "active";
  created_at = 5;
  updated_at = 5;
}

abbrev pub start_db : Db
start_db = record genesis_db { agents = planner ∷ []; oauth_scopes = transfer_row ∷ [] }

abbrev pub transfer : AuthorityScope
transfer = record {
  scope_id = "pay.transfer";
  amount_limit_minor = some 500;
  per_period_limit_minor = some 800;
  period = some Period.daily;
  category_whitelist = none;
  recipient_whitelist = none;
}

-- No other transaction.
abbrev pub undisturbed : ℕ → Db → Db
undisturbed n db = db

-- A signer whose token is the jti of its claims, and a step-up verifier that knows one account.
abbrev pub issuance : IssuanceDeps
issuance = record {
  signer = some (λ claims. signed claims.jti);
  verify_step_up = λ token. step_up_ok token "acc_1";
  issuer = "https://identiti";
  helpan_audience = "https://helpan";
}

abbrev pub console : AuthorityAuditContext
console = record {
  app_id = "helpan_console";
  request_id = "req_1";
  traceparent = none;
  caller = Caller.customer;
  caller_account_uuid = some "acc_1";
}

abbrev pub grant : IssueAuthorityArgs
grant = record {
  account_uuid = "acc_1";
  agent_id = "agt_planner";
  scopes = transfer ∷ [];
  ttl_seconds = 600;
  step_up_token = some "step_up";
}

-- 1970-01-12T13:46:40Z.
abbrev pub granted_at : ℕ
granted_at = 1_000_000_000

abbrev pub by_user : RevokeAuthorityArgs
by_user = record { reason = RevocationReason.user_initiated; detail = none }
