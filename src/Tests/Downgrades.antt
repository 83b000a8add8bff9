-- ===== src/Tests/Downgrades.antt =====
-- A cascade after a tier downgrade at a concrete input.
use helpan_ai.Prelude.{none, some, [], ◌∷◌, ◌≡◌, refl, if◌then◌else◌}
use helpan_ai.Store.{Db, empty_db}
use helpan_ai.Store.Rows.{OauthScopeRow, DelegatedAuthorityRow}
use helpan_ai.Store.Tx.{Result, ok, err}
use helpan_ai.Scopes.{get_scope_by_id, classify_scope}
use helpan_ai.Audit.{append_audit_entry}
use helpan_ai.Outbox.Enqueue.{enqueue_outbox_entry}
use helpan_ai.Authorities.Repo.{get_authority_by_id, revoked_row, revoke_active_authority}
use helpan_ai.Workers.Cascade.{
  AccountEvent, CascadeResult, kyc_downgraded, ignored, cascade_of, trigger_of,
  handle_account_event, is_tier_downgrade,
}
use helpan_ai.Workers.Cascade.Laws.{cascade_patch}
use helpan_ai.Workers.Cascade.Targets.{is_target, handle_account_event-reads}
use helpan_ai.Tests.Fixtures.{plain_world, start_db, transfer_row, transfer}
use helpan_ai.Tests.Grants.{granted_row, alone}

abbrev balance_row : OauthScopeRow
balance_row = record transfer_row {
  id = "pay.balance";
  category = "read";
  elevation_friction = "low";
}

abbrev reader_row : DelegatedAuthorityRow
reader_row = record granted_row {
  id = "daa_1";
  scopes = record transfer { scope_id = "pay.balance" } ∷ [];
}

-- One authority that moves money, and one that reads.
abbrev two_db : Db
two_db = record start_db {
  oauth_scopes = transfer_row ∷ balance_row ∷ [];
  delegated_authorities = granted_row ∷ reader_row ∷ [];
}

abbrev downgraded : AccountEvent
downgraded = record {
  event_type = some "TIER_CHANGED";
  account_uuid = some "acc_1";
  from_tier = some "tier_2";
  to_tier = some "tier_1";
  traceparent = none;
}

abbrev result_or : Result (CascadeResult × Db) → CascadeResult × Db
result_or (ok r) = r
result_or (err e) = (record { trigger = ignored; account_uuid = none; revoked = 0 }, empty_db)

abbrev swept : CascadeResult × Db
swept =
    result_or
      (handle_account_event plain_world alone downgraded "req_4" 1_000_200_000 1_000_200_000 two_db)

sweep_returns :
    handle_account_event plain_world alone downgraded "req_4" 1_000_200_000 1_000_200_000 two_db
    ≡ ok (swept.0, swept.1)
unfolding handle_account_event revoke_active_authority append_audit_entry enqueue_outbox_entry
    get_scope_by_id classify_scope
sweep_returns = refl

sweep_counts : swept.0.revoked ≡ 1
unfolding handle_account_event revoke_active_authority append_audit_entry enqueue_outbox_entry
    get_scope_by_id classify_scope
sweep_counts = refl

downgrades : trigger_of downgraded ≡ some (kyc_downgraded, "acc_1", "TIER_CHANGED")
unfolding trigger_of is_tier_downgrade
downgrades = refl

handle_account_event-reads_example :
    get_authority_by_id swept.1.delegated_authorities "daa_0"
    ≡ some (
        if is_target two_db.oauth_scopes kyc_downgraded "acc_1" granted_row
        then revoked_row
            (cascade_patch (
              cascade_of downgraded kyc_downgraded "acc_1" "TIER_CHANGED" "req_4" 1_000_200_000
                1_000_200_000))
            granted_row
        else granted_row)
unfolding get_authority_by_id
handle_account_event-reads_example =
    handle_account_event-reads plain_world alone downgraded "req_4" 1_000_200_000 1_000_200_000
      two_db kyc_downgraded "acc_1" "TIER_CHANGED" swept.0 swept.1 downgrades sweep_returns refl
      (refl, (refl, tt)) "daa_0" granted_row refl
