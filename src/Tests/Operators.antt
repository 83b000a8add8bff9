-- ===== src/Tests/Operators.antt =====
-- The operators' services at concrete inputs.
use helpan_ai.Prelude.{
  ℕ, zero, suc, map, String, false, none, some, List, [], ◌∷◌, Option, ◌≡◌, ◌≢◌, refl,
}
use helpan_ai.Json.{arr, nil}
use helpan_ai.Store.{Db, empty_db}
use helpan_ai.Store.Rows.{AgentStatus}
use helpan_ai.Store.Policies.{SafetyPolicyRow, AudiencePosture}
use helpan_ai.Store.Tx.{Result, ok, err, coded}
use helpan_ai.Authorities.Issue.{issue_authority, signed}
use helpan_ai.Operators.Audited.{OperatorAuditContext}
use helpan_ai.Operators.Agents.{UpdateStatusArgs, AgentDto, change_agent_status}
use helpan_ai.Operators.Suspension.{change-issue_authority}
use helpan_ai.Operators.Policies.{
  get_safety_policy_by_app_id, get_safety_policy_by_id, PutSafetyPolicyArgs, PutResult,
  SafetyPolicyDto, to_policy_dto, put_safety_policy, create_safety_policy, list_all_safety_policies,
}
use helpan_ai.Operators.Uniqueness.{IsOnePerApp, KeepsApps, app_of, put_safety_policy-IsOnePerApp}
use helpan_ai.Paging.{list_rows, page_of, Cursor}
use helpan_ai.Operators.AuditList.{AuditEntryDto, ListAuditArgs, list_audit}
use helpan_ai.Store.Rows.{AgentRow}
use helpan_ai.Scopes.{classify_scope, tightest_ttl_seconds, requires_step_up, get_scope_by_id}
use helpan_ai.Audit.{append_audit_entry, insert_row, audit_row}
use helpan_ai.Outbox.Enqueue.{enqueue_outbox_entry}
use helpan_ai.Authorities.Types.{AuthorityDto}
use helpan_ai.Authorities.Repo.{get_agent_by_id, insert_authority}
use helpan_ai.Authorities.Conditions.{check_classified, class_by_id, check_step_up}
use helpan_ai.Authorities.Issue.{sign_and_persist, persist_issued}
use helpan_ai.Tests.Grants.{value_or}
use helpan_ai.Tests.Fixtures.{
  plain_world, start_db, issuance, console, undisturbed, grant, granted_at,
}
use helpan_ai.Json.Stringify.{decimal}

abbrev pub operator : OperatorAuditContext
operator = record { app_id = "ops"; request_id = "req_9"; traceparent = none }

abbrev suspension : UpdateStatusArgs
suspension = record { status = some AgentStatus.suspended; name = none; reason = some "abuse" }

abbrev pub returned : {A : Type 0} → A → Result (A × Db) → A × Db
returned a (ok r) = r
returned a (err e) = (a, empty_db)

abbrev suspended : Option AgentDto × Db
suspended =
    returned none
      (change_agent_status plain_world operator "agt_planner" suspension 900 901 899 start_db)

suspended_returns :
    change_agent_status plain_world operator "agt_planner" suspension 900 901 899 start_db
    ≡ ok (suspended.0, suspended.1)
unfolding change_agent_status get_agent_by_id append_audit_entry
suspended_returns = refl

not_active : AgentStatus.suspended ≢ AgentStatus.active
not_active h = cc

change-issue_authority_example :
    issue_authority plain_world issuance console grant undisturbed granted_at granted_at suspended.1
    ≡ err (coded "AGENT_INVALID" 400 (some "agent_id"))
change-issue_authority_example =
    change-issue_authority plain_world operator "agt_planner" suspension 900 901 899 start_db
      suspended.0 suspended.1 AgentStatus.suspended suspended_returns refl not_active issuance
      (λ claims. signed claims.jti) console grant granted_at granted_at refl refl undisturbed
      suspended.1 refl

-- The agent is suspended while Identiti signs: the grant has read it before, and is issued.
abbrev suspends : ℕ → Db → Db
suspends zero db = db
suspends (suc n) db =
    (returned none
      (change_agent_status plain_world operator "agt_planner" suspension 900 901 899 db)).1

abbrev raced : AuthorityDto × Db
raced =
    value_or
      (issue_authority plain_world issuance console grant suspends granted_at granted_at start_db)

abbrev agent_statuses : List AgentRow → List AgentStatus
agent_statuses rows = map (λ (r : AgentRow). r.status) rows

raced_returns :
    issue_authority plain_world issuance console grant suspends granted_at granted_at start_db
    ≡ ok (raced.0, raced.1)
unfolding issue_authority get_agent_by_id get_scope_by_id check_classified tightest_ttl_seconds
    classify_scope class_by_id check_step_up requires_step_up sign_and_persist persist_issued
    insert_authority append_audit_entry enqueue_outbox_entry change_agent_status insert_row
    audit_row
raced_returns = refl

raced_suspended : agent_statuses raced.1.agents ≡ AgentStatus.suspended ∷ []
unfolding issue_authority get_agent_by_id get_scope_by_id check_classified tightest_ttl_seconds
    classify_scope class_by_id check_step_up requires_step_up sign_and_persist persist_issued
    insert_authority append_audit_entry enqueue_outbox_entry change_agent_status insert_row
    audit_row
raced_suspended = refl

abbrev policy : String → String → SafetyPolicyRow
policy id app = record {
  id = id;
  app_id = app;
  category_whitelist = [];
  category_blacklist = "alcohol" ∷ [];
  content_moderation_rules = arr nil;
  audience_posture = AudiencePosture.general;
  location_precision_floor = none;
  created_at = 5;
  updated_at = 5;
}

abbrev governed : Db
governed = record start_db {
  safety_policies = policy "sfp_2" "app_shop" ∷ policy "sfp_1" "app_planner" ∷ [];
}

abbrev for_app : String → PutSafetyPolicyArgs
for_app app = record {
  id = "sfp_1";
  app_id = app;
  category_whitelist = some ("books" ∷ []);
  category_blacklist = none;
  content_moderation_rules = none;
  audience_posture = some AudiencePosture.family_friendly;
  location_precision_floor = some none;
}

abbrev put : PutResult × Db
put =
    returned (to_policy_dto (policy "sfp_0" "none"), false)
      (put_safety_policy plain_world operator "sfp_1" (for_app "app_planner") 900 899 governed)

put_returns :
    put_safety_policy plain_world operator "sfp_1" (for_app "app_planner") 900 899 governed
    ≡ ok (put.0, put.1)
unfolding put_safety_policy get_safety_policy_by_id append_audit_entry
put_returns = refl

put_safety_policy-IsOnePerApp_example :
    IsOnePerApp put.1.safety_policies
    × KeepsApps governed.safety_policies put.1.safety_policies
    × (app_of put.1.safety_policies "sfp_1" ≡ some "app_planner")
put_safety_policy-IsOnePerApp_example =
    put_safety_policy-IsOnePerApp plain_world operator (for_app "app_planner") 900 899 governed
      put.0 put.1 ((refl, (refl, tt)), (refl, (refl, tt))) "sfp_1" put_returns

frozen :
    put_safety_policy plain_world operator "sfp_1" (for_app "app_shop") 900 899 governed
    ≡ err (coded "SAFETY_POLICY_APP_ID_FROZEN" 409 (some "app_id"))
unfolding put_safety_policy get_safety_policy_by_id
frozen = refl

taken :
    create_safety_policy plain_world operator (for_app "app_shop") 900 899 governed
    ≡ err (coded "SAFETY_POLICY_APP_HAS_POLICY" 409 (some "app_id"))
unfolding create_safety_policy decimal get_safety_policy_by_id get_safety_policy_by_app_id
taken = refl

abbrev ids_of : List SafetyPolicyDto → List String
ids_of [] = []
ids_of (x ∷ xs) = x.id ∷ ids_of xs

listed_by_app : ids_of (list_all_safety_policies governed) ≡ "sfp_1" ∷ "sfp_2" ∷ []
unfolding list_all_safety_policies
listed_by_app = refl

abbrev actions_of : Result (List AuditEntryDto × Option Cursor) → List String
actions_of (ok (items, next)) = map (λ (e : AuditEntryDto). e.action) items
actions_of (err e) = []

abbrev of_agents : ListAuditArgs
of_agents = record {
  account_uuid = none;
  agent_id = none;
  action = none;
  from = some 1;
  to = none;
  cursor = none;
  limit = some 1;
}

last_entry : actions_of (list_audit (λ row. 0) suspended.1 of_agents) ≡ "agent.status_change" ∷ []
unfolding list_audit page_of list_rows change_agent_status get_agent_by_id append_audit_entry
    insert_row audit_row
last_entry = refl
