-- ===== src/Store.antt =====
-- The database of the service: the rows of src/db/schema as the repositories type them, and a
-- transaction as a function of the database that a thrown error rolls back.
pub mod Rows
pub mod Briefings
pub mod Policies
pub mod Tx
pub mod Keyed
use helpan_ai.Prelude.{ℕ, List, []}
use Rows.{
  AgentRow, OauthScopeRow, DelegatedAuthorityRow, AuthorityUsageRow, ActionRow, AuditLogRow,
  KafkaOutboxRow,
}
use Policies.{SafetyPolicyRow}
use Briefings.{BriefingRow, EventRow, BriefingMatchRow, WebhookDeliveryRow}

-- Tables are lists in the order of insertion, but for `audit_log`, which stands in the order of
-- its key (created_at, id). `minted` counts the ULIDs drawn so far.
pub record Db : Type 0 where
  pub agents : List AgentRow
  pub oauth_scopes : List OauthScopeRow
  pub delegated_authorities : List DelegatedAuthorityRow
  pub authority_usage : List AuthorityUsageRow
  pub actions : List ActionRow
  pub audit_log : List AuditLogRow
  pub kafka_outbox : List KafkaOutboxRow
  pub briefings : List BriefingRow
  pub events_ingested : List EventRow
  pub briefing_matches : List BriefingMatchRow
  pub webhook_deliveries : List WebhookDeliveryRow
  pub safety_policies : List SafetyPolicyRow
  pub minted : ℕ

abbrev pub empty_db : Db
empty_db = record {
  agents = [];
  oauth_scopes = [];
  delegated_authorities = [];
  authority_usage = [];
  actions = [];
  audit_log = [];
  kafka_outbox = [];
  briefings = [];
  events_ingested = [];
  briefing_matches = [];
  webhook_deliveries = [];
  safety_policies = [];
  minted = 0;
}
