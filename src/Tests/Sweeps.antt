-- ===== src/Tests/Sweeps.antt =====
-- The reaper and the cascade at concrete inputs.
use helpan_ai.Prelude.{ℕ, String, Bool, false, none, some, List, [], ◌∷◌, ◌≡◌, refl, any}
use helpan_ai.Json.{null}
use helpan_ai.Store.{Db, empty_db}
use helpan_ai.Store.Rows.{ActionRow, ActionStatus, ActionInitiatedBy}
use helpan_ai.Store.Tx.{Result, ok, err}
use helpan_ai.Audit.{append_audit_entry}
use helpan_ai.Outbox.Enqueue.{enqueue_outbox_entry}
use helpan_ai.Authorities.Repo.{get_authority_by_id, is_active_of_account, revoke_active_authority}
use helpan_ai.Authorities.Repo.Keys.{has_id}
use helpan_ai.Actions.Repo.{mark_action_failed, list_stale_pending_actions}
use helpan_ai.Workers.Reaper.{ReaperClocks, ReapStaleActionsOptions, reap_stale_actions}
use helpan_ai.Workers.Cascade.{
  AccountEvent, CascadeResult, account_suspended, trigger_of, targets_of, handle_account_event,
  ignored,
}
use helpan_ai.Workers.Cascade.Laws.{AreDead}
use helpan_ai.Workers.Cascade.Redelivery.{handle_account_event-again}
use helpan_ai.Workers.Cascade.Effects.{
  handle_account_event-targets, handle_account_event-none_active,
}
use helpan_ai.Tests.Fixtures.{plain_world, start_db}
use helpan_ai.Tests.Grants.{granted_db, alone}

abbrev stuck : String → ℕ → ActionRow
stuck id created_at = record {
  id = id;
  account_uuid = "acc_1";
  agent_id = "agt_planner";
  delegated_authority_jti = some "daa_0";
  target_rail = "kipkiren_pay";
  target_operation = "pay.transfer";
  status = ActionStatus.pending;
  initiated_by = ActionInitiatedBy.agent;
  actor_type = some "agent";
  request_payload_redacted = null;
  result_redacted = none;
  error_code = none;
  traceparent = none;
  app_id = "app_planner";
  app_correlation_id = none;
  business_op_id = none;
  idempotency_key = id;
  created_at = created_at;
  completed_at = none;
}

abbrev stuck_db : Db
stuck_db = record start_db {
  actions = stuck "act_old" 1_000_000_000 ∷ stuck "act_new" 1_000_700_000 ∷ [];
}

abbrev reaper_clocks : ReaperClocks
reaper_clocks = record { now = 1_000_900_000; marked_at = 1_000_900_001; tx_now = 1_000_900_002 }

abbrev after_ten_minutes : ReapStaleActionsOptions
after_ten_minutes = record { stale_after_seconds = 600; batch_size = 10 }

abbrev unlocked : String → Bool
unlocked id = false

abbrev ids_or : Result (List String × Db) → List String × Db
ids_or (ok r) = r
ids_or (err e) = ([], empty_db)

abbrev reaped : List String × Db
reaped = ids_or (reap_stale_actions plain_world unlocked reaper_clocks after_ten_minutes stuck_db)

reaped_ids : reaped.0 ≡ "act_old" ∷ []
unfolding reap_stale_actions list_stale_pending_actions mark_action_failed append_audit_entry
reaped_ids = refl

abbrev suspended : AccountEvent
suspended = record {
  event_type = some "ACCOUNT_SUSPENDED";
  account_uuid = some "acc_1";
  from_tier = none;
  to_tier = none;
  traceparent = none;
}

abbrev result_or : Result (CascadeResult × Db) → CascadeResult × Db
result_or (ok r) = r
result_or (err e) = (record { trigger = ignored; account_uuid = none; revoked = 0 }, empty_db)

abbrev swept : CascadeResult × Db
swept = result_or (
    handle_account_event plain_world alone suspended "req_3" 1_000_200_000 1_000_200_000 granted_db)

sweep_returns :
    handle_account_event plain_world alone suspended "req_3" 1_000_200_000 1_000_200_000 granted_db
    ≡ ok (swept.0, swept.1)
unfolding handle_account_event revoke_active_authority append_audit_entry enqueue_outbox_entry
sweep_returns = refl

sweep_counts : swept.0.revoked ≡ 1
unfolding handle_account_event revoke_active_authority append_audit_entry enqueue_outbox_entry
sweep_counts = refl

suspends : trigger_of suspended ≡ some (account_suspended, "acc_1", "ACCOUNT_SUSPENDED")
unfolding trigger_of
suspends = refl

no_target : any (has_id "daa_9") (targets_of granted_db account_suspended "acc_1") ≡ false
unfolding targets_of
no_target = refl

handle_account_event-targets_example :
    AreDead swept.1.delegated_authorities (targets_of granted_db account_suspended "acc_1")
    × (get_authority_by_id swept.1.delegated_authorities "daa_9"
        ≡ get_authority_by_id granted_db.delegated_authorities "daa_9")
handle_account_event-targets_example =
    handle_account_event-targets plain_world alone suspended "req_3" 1_000_200_000 1_000_200_000
      granted_db account_suspended "acc_1" "ACCOUNT_SUSPENDED" swept.0 swept.1 suspends
      sweep_returns "daa_9" no_target

handle_account_event-none_active_example :
    any (is_active_of_account "acc_1") swept.1.delegated_authorities ≡ false
handle_account_event-none_active_example =
    handle_account_event-none_active plain_world alone suspended "req_3" 1_000_200_000 1_000_200_000
      granted_db account_suspended "acc_1" "ACCOUNT_SUSPENDED" swept.0 swept.1 suspends
      sweep_returns refl refl

handle_account_event-again_example :
    handle_account_event plain_world (λ d. d) suspended "req_9" 1_000_300_000 1_000_300_000 swept.1
    ≡ ok (record { trigger = account_suspended; account_uuid = some "acc_1"; revoked = 0 }, swept.1)
handle_account_event-again_example =
    handle_account_event-again plain_world suspended "req_3" 1_000_200_000 1_000_200_000 granted_db
      "acc_1" "ACCOUNT_SUSPENDED" swept.0 swept.1 suspends sweep_returns "req_9" 1_000_300_000
      1_000_300_000
