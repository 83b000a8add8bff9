-- ===== src/Authorities/Repo.antt =====
-- src/modules/authorities/repo.ts: `delegated_authorities` and `authority_usage`, and the lookup
-- of src/modules/operatorAgents/repo.ts.
pub mod Keys
pub mod Usage
use helpan_ai.Prelude.{
  ℕ, ◌+◌, String, Bool, true, false, ◌&&◌, Option, none, some, List, [], ◌∷◌, ◌++◌, ◌==◌, nat_eq,
  any, find, update_where, if◌then◌else◌,
}
use helpan_ai.Time.{CivilDate}
use helpan_ai.Store.{Db}
use helpan_ai.Store.Rows.{
  AgentRow, AuthorityScope, AuthorityStatus, RevocationReason, DelegatedAuthorityRow,
  AuthorityUsageRow, authority_is_active,
}
use helpan_ai.Store.Tx.{Tx, ok, err, internal}

unfoldable pub get_agent_by_id : List AgentRow → String → Option AgentRow
get_agent_by_id rows id = find (λ r. r.id == id) rows

unfoldable pub get_authority_by_id :
    List DelegatedAuthorityRow → String → Option DelegatedAuthorityRow
get_authority_by_id rows id = find (λ r. r.id == id) rows

pub record InsertAuthorityInput : Type 0 where
  pub id : String
  pub account_uuid : String
  pub agent_id : String
  pub scopes : List AuthorityScope
  pub step_up_jti : Option String
  pub issued_by_app_id : String
  pub expires_at : ℕ

unfoldable pub authority_row : ℕ → InsertAuthorityInput → DelegatedAuthorityRow
authority_row tx_now input = record {
  id = input.id;
  account_uuid = input.account_uuid;
  agent_id = input.agent_id;
  scopes = input.scopes;
  status = AuthorityStatus.active;
  step_up_jti = input.step_up_jti;
  issued_by_app_id = input.issued_by_app_id;
  issued_at = tx_now;
  expires_at = input.expires_at;
  revoked_at = none;
  revocation_reason = none;
  revocation_detail = none;
}

-- A second row with the id is refused by the primary key.
unfoldable pub insert_authority : ℕ → InsertAuthorityInput → Tx Db DelegatedAuthorityRow
unfolding authority_row
insert_authority tx_now input db =
    let row = authority_row tx_now input in
    if any (λ r. r.id == input.id) db.delegated_authorities
    then err (internal "duplicate key: delegated_authorities_pkey")
    else ok (row, record db { delegated_authorities = db.delegated_authorities ++ row ∷ [] })

pub record RevokeAuthorityPatch : Type 0 where
  pub reason : RevocationReason
  pub detail : Option String
  pub revoked_at : ℕ

abbrev pub revoked_row : RevokeAuthorityPatch → DelegatedAuthorityRow → DelegatedAuthorityRow
revoked_row patch row = record row {
  status = AuthorityStatus.revoked;
  revoked_at = some patch.revoked_at;
  revocation_reason = some patch.reason;
  revocation_detail = patch.detail;
}

abbrev pub is_active_with_id : String → DelegatedAuthorityRow → Bool
is_active_with_id id row = row.id == id && authority_is_active row.status

abbrev returned :
    String
    → RevokeAuthorityPatch
    → Option DelegatedAuthorityRow
    → Tx Db (Option DelegatedAuthorityRow)
returned id patch none db = ok (none, db)
returned id patch (some row) db = ok (
  some (revoked_row patch row),
  record db {
    delegated_authorities =
        update_where (is_active_with_id id) (revoked_row patch) db.delegated_authorities;
  },
)

-- UPDATE … WHERE id AND status = 'active' RETURNING the row.
unfoldable pub revoke_active_authority :
    String → RevokeAuthorityPatch → Tx Db (Option DelegatedAuthorityRow)
revoke_active_authority id patch db =
    returned id patch (find (is_active_with_id id) db.delegated_authorities) db

abbrev pub is_active_of_account : String → DelegatedAuthorityRow → Bool
is_active_of_account account row = row.account_uuid == account && authority_is_active row.status

abbrev pub usage_key : String → String → CivilDate → AuthorityUsageRow → Bool
usage_key authority scope window row =
    row.authority_id == authority
    && row.scope_id == scope
    && nat_eq row.period_window.year window.year
    && nat_eq row.period_window.month window.month
    && nat_eq row.period_window.day window.day

abbrev cumulative : Option AuthorityUsageRow → ℕ
cumulative none = 0
cumulative (some row) = row.cumulative_minor

unfoldable pub get_period_usage_minor : List AuthorityUsageRow → String → String → CivilDate → ℕ
get_period_usage_minor rows authority scope window =
    cumulative (find (usage_key authority scope window) rows)

abbrev bump : ℕ → ℕ → AuthorityUsageRow → AuthorityUsageRow
bump tx_now amount row = record row {
  cumulative_minor = row.cumulative_minor + amount;
  call_count = row.call_count + 1;
  last_used_at = tx_now;
}

-- INSERT … ON CONFLICT (authority, scope, window) DO UPDATE.
unfoldable pub increment_authority_usage :
    ℕ → String → String → CivilDate → ℕ → List AuthorityUsageRow → List AuthorityUsageRow
increment_authority_usage tx_now authority scope window amount [] =
    record {
      authority_id = authority;
      scope_id = scope;
      period_window = window;
      cumulative_minor = amount;
      call_count = 1;
      last_used_at = tx_now;
    }
    ∷ []
increment_authority_usage tx_now authority scope window amount (row ∷ rows) =
    elim (usage_key authority scope window row) [
      | true ↦ bump tx_now amount row ∷ rows
      | false ↦ row ∷ increment_authority_usage tx_now authority scope window amount rows
    ]
