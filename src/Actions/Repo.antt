-- ===== src/Actions/Repo.antt =====
-- src/modules/actions/repo.ts: the `actions` table.
pub mod Laws
use Prim.Native.String.{compare}
use text.Mathlib.Text.{is_lt}
use helpan_ai.Prelude.{
  ℕ, ◌+◌, String, Bool, true, false, ◌&&◌, ◌||◌, Option, none, some, List, [], ◌∷◌, ◌++◌, ◌==◌, ltb,
  nat_eq, any, find, select, take, update_where, if◌then◌else◌,
}
use helpan_ai.Json.{Json}
use helpan_ai.Store.{Db}
use helpan_ai.World.{World}
use helpan_ai.Store.Rows.{ActionRow, ActionStatus, ActionInitiatedBy, action_is_pending}
use helpan_ai.Store.Tx.{Tx, ok, err, internal}

pub record InsertActionInput : Type 0 where
  pub id : String
  pub account_uuid : String
  pub agent_id : String
  pub delegated_authority_jti : String
  pub target_rail : String
  pub target_operation : String
  pub initiated_by : ActionInitiatedBy
  pub actor_type : String
  pub request_payload_redacted : Json
  pub traceparent : String
  pub app_id : String
  pub app_correlation_id : Option String
  pub business_op_id : String
  pub idempotency_key : String

unfoldable pub action_row : World → ℕ → InsertActionInput → ActionRow
action_row w tx_now input = record {
  id = input.id;
  account_uuid = input.account_uuid;
  agent_id = input.agent_id;
  delegated_authority_jti = some input.delegated_authority_jti;
  target_rail = input.target_rail;
  target_operation = input.target_operation;
  status = ActionStatus.pending;
  initiated_by = input.initiated_by;
  actor_type = some input.actor_type;
  request_payload_redacted = w.jsonb input.request_payload_redacted;
  result_redacted = none;
  error_code = none;
  traceparent = some input.traceparent;
  app_id = input.app_id;
  app_correlation_id = input.app_correlation_id;
  business_op_id = some input.business_op_id;
  idempotency_key = input.idempotency_key;
  created_at = tx_now;
  completed_at = none;
}

-- `actions_pkey`, and the unique index on (idempotency_key, app_id).
abbrev pub conflicts : InsertActionInput → ActionRow → Bool
conflicts input row =
    row.id == input.id
    || (row.idempotency_key == input.idempotency_key && row.app_id == input.app_id)

unfoldable pub insert_action : World → ℕ → InsertActionInput → Tx Db ActionRow
insert_action w tx_now input db =
    if any (conflicts input) db.actions
    then err (internal "duplicate key: actions")
    else ok (
      action_row w tx_now input,
      record db { actions = db.actions ++ action_row w tx_now input ∷ [] },
    )

abbrev pub has_action_id : String → ActionRow → Bool
has_action_id id row = row.id == id

unfoldable pub completed_row : World → ℕ → Json → ActionRow → ActionRow
completed_row w now result row = record row {
  status = ActionStatus.completed;
  result_redacted = some (w.jsonb result);
  error_code = none;
  completed_at = some now;
}

abbrev stored : World → Option Json → Option Json
stored w none = none
stored w (some d) = some (w.jsonb d)

unfoldable pub failed_row : World → ℕ → String → Option Json → ActionRow → ActionRow
failed_row w now code detail row = record row {
  status = ActionStatus.failed;
  result_redacted = stored w detail;
  error_code = some code;
  completed_at = some now;
}

abbrev pub updated : (ActionRow → ActionRow) → Option ActionRow → Option ActionRow
updated f none = none
updated f (some row) = some (f row)

-- UPDATE … WHERE id RETURNING the row, whatever its status.
unfoldable pub update_action : String → (ActionRow → ActionRow) → Tx Db (Option ActionRow)
update_action id f db = ok (
  updated f (find (has_action_id id) db.actions),
  record db { actions = update_where (has_action_id id) f db.actions },
)

unfoldable pub mark_action_completed : World → ℕ → String → Json → Tx Db (Option ActionRow)
unfolding update_action
mark_action_completed w now id result = update_action id (completed_row w now result)

unfoldable pub mark_action_failed :
    World → ℕ → String → String → Option Json → Tx Db (Option ActionRow)
unfolding update_action
mark_action_failed w now id code detail = update_action id (failed_row w now code detail)

unfoldable pub get_action_by_id : List ActionRow → String → Option ActionRow
get_action_by_id rows id = find (has_action_id id) rows

-- ORDER BY created_at ASC, id ASC.
abbrev pub action_before : ActionRow → ActionRow → Bool
action_before a b =
    ltb a.created_at b.created_at || (nat_eq a.created_at b.created_at && is_lt (compare a.id b.id))

unfoldable pub insert_by_age : ActionRow → List ActionRow → List ActionRow
insert_by_age row [] = row ∷ []
insert_by_age row (x ∷ xs) = elim (action_before row x) [
  | true ↦ row ∷ x ∷ xs
  | false ↦ x ∷ insert_by_age row xs
]

unfoldable pub sort_by_age : List ActionRow → List ActionRow
sort_by_age [] = []
sort_by_age (x ∷ xs) = insert_by_age x (sort_by_age xs)

abbrev pub is_stale : ℕ → ActionRow → Bool
is_stale older_than row = action_is_pending row.status && ltb row.created_at older_than

-- The rows that other transactions have locked are left out by SKIP LOCKED: `locked` names them.
unfoldable pub list_stale_pending_actions :
    (String → Bool) → ℕ → ℕ → List ActionRow → List ActionRow
unfolding sort_by_age insert_by_age
list_stale_pending_actions locked older_than limit rows =
    take limit
      (sort_by_age (select (λ r. if locked r.id then false else is_stale older_than r) rows))
