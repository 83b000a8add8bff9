-- ===== src/Workers/Reaper.antt =====
-- src/workers/actionReaper/reaper.ts.
pub mod Batch
pub mod Laws
use Prim.Native.String.{◌++◌ as concat}
use helpan_ai.Prelude.{ℕ, ◌+◌, ◌-◌, ◌*◌, ◌/◌, String, Bool, some, List, [], ◌∷◌, is_some}
use helpan_ai.Json.{Json, obj, str, nat, field, end}
use helpan_ai.Time.{to_iso_string}
use helpan_ai.World.{World}
use helpan_ai.Store.{Db}
use helpan_ai.Store.Rows.{ActionRow}
use helpan_ai.Store.Tx.{Tx, internal, ◌>>=◌, ◌>>◌, pure, require, gets}
use helpan_ai.Audit.{append_audit_entry}
use helpan_ai.Audit.Hash.{AuditEntry, blank_entry}
use helpan_ai.Authorities.Claims.{truthy_text}
use helpan_ai.Actions.Repo.{mark_action_failed, list_stale_pending_actions}

-- The clocks of a tick: `deps.now`, the `new Date()` of an update, and NOW() of the transaction.
pub record ReaperClocks : Type 0 where
  pub now : ℕ
  pub marked_at : ℕ
  pub tx_now : ℕ

pub record ReapStaleActionsOptions : Type 0 where
  pub stale_after_seconds : ℕ
  pub batch_size : ℕ

abbrev pub reaper_error_code : String
reaper_error_code = "REAPER_UNRESOLVED"

abbrev pub reap_reason : Json
reap_reason = str "reaper_settled_orphaned_pending_action"

abbrev pub reaped_detail : ReaperClocks → ReapStaleActionsOptions → Json
reaped_detail clocks options = obj (
    field "reaped_at" (str (to_iso_string clocks.now)) (
      field "stale_after_seconds" (nat options.stale_after_seconds)
        (field "reason" reap_reason end)))

-- `Math.round` of the age, which is not negative for a stale row.
unfoldable pub reaper_entry : ReaperClocks → ActionRow → AuditEntry
reaper_entry clocks row = record blank_entry {
  actor_type = "system";
  actor_id = "helpan-ai-rail:reaper";
  account_uuid = some row.account_uuid;
  action = "action.fail";
  resource_type = some "action";
  resource_id = some row.id;
  app_id = some row.app_id;
  request_id = concat "reaper-" row.id;
  traceparent = truthy_text row.traceparent;
  outcome = "failure";
  initiated_by = some "system";
  agent_id = some row.agent_id;
  delegated_authority_jti = truthy_text row.delegated_authority_jti;
  target_rail = some row.target_rail;
  target_operation = some row.target_operation;
  business_op_id = truthy_text row.business_op_id;
  detail = some (
      obj (
        field "error_code" (str reaper_error_code) (
          field "reason" reap_reason (
            field "settled_at" (str (to_iso_string clocks.now)) (
              field "original_created_at" (str (to_iso_string row.created_at))
                (field "age_seconds" (nat ((clocks.now - row.created_at + 500) / 1000)) end))))));
}

-- One row of the batch.
unfoldable pub settle_stale :
    World → ReaperClocks → ReapStaleActionsOptions → ActionRow → Tx Db (Unit {0})
unfolding reaper_entry
settle_stale w clocks options row = do
  final ←
      mark_action_failed w clocks.marked_at row.id reaper_error_code
        (some (reaped_detail clocks options))
  require (is_some final) (internal "reaper: row vanished between SELECT and UPDATE")
  append_audit_entry w clocks.tx_now (reaper_entry clocks row)
  pure tt

unfoldable pub settle_all :
    World → ReaperClocks → ReapStaleActionsOptions → List ActionRow → Tx Db (List String)
unfolding settle_stale
settle_all w clocks options [] = pure []
settle_all w clocks options (row ∷ rows) =
    settle_stale w clocks options row
    >> (settle_all w clocks options rows >>= (λ ids. pure (row.id ∷ ids)))

abbrev pub older_than : ReaperClocks → ReapStaleActionsOptions → ℕ
older_than clocks options = clocks.now - options.stale_after_seconds * 1000

-- A tick is one transaction: an error rolls the whole batch back and is thrown on. It returns
-- `reapedIds`, whose length is `reaped`; `errors` is 0 where it returns.
unfoldable pub reap_stale_actions :
    World → (String → Bool) → ReaperClocks → ReapStaleActionsOptions → Tx Db (List String)
unfolding settle_all
reap_stale_actions w locked clocks options = do
  stale ← gets (λ (db : Db).
      list_stale_pending_actions locked (older_than clocks options) options.batch_size db.actions)
  settle_all w clocks options stale
