-- ===== src/Operators/Agents.antt =====
-- src/modules/operatorAgents/service.ts and repo.ts.
use Prim.Native.String.{◌++◌ as concat}
use helpan_ai.Prelude.{
  ℕ, ◌+◌, String, Bool, Option, none, some, [], ◌∷◌, ◌++◌, ◌==◌, any, update_where, ◌or_else◌,
  is_some, if◌then◌else◌,
}
use helpan_ai.Json.{str, end, field, with_text}
use helpan_ai.Time.{to_iso_string}
use helpan_ai.World.{World}
use helpan_ai.Store.{Db}
use helpan_ai.Store.Rows.{AgentRow, AgentStatus, AgentClass}
use helpan_ai.Store.Tx.{ok, err, coded, internal, Tx, ◌>>=◌, ◌>>◌, pure, gets, modify, require}
use helpan_ai.Audit.{append_audit_entry}
use helpan_ai.Audit.Hash.{AuditEntry}
use helpan_ai.Authorities.Claims.{truthy_text}
use helpan_ai.Authorities.Repo.{get_agent_by_id}
use helpan_ai.Operators.Audited.{OperatorAuditContext, operator_entry}

pub record AgentDto : Type 0 where
  pub id : String
  pub name : String
  pub agent_class : AgentClass
  pub owner_app_id : Option String
  pub third_party_oauth_client_id : Option String
  pub status : AgentStatus
  pub created_at : String
  pub updated_at : String
  pub suspended_at : Option String
  pub retired_at : Option String

abbrev iso_or_none : Option ℕ → Option String
iso_or_none none = none
iso_or_none (some t) = some (to_iso_string t)

unfoldable pub to_agent_dto : AgentRow → AgentDto
to_agent_dto row = record {
  id = row.id;
  name = row.name;
  agent_class = row.agent_class;
  owner_app_id = row.owner_app_id;
  third_party_oauth_client_id = row.third_party_oauth_client_id;
  status = row.status;
  created_at = to_iso_string row.created_at;
  updated_at = to_iso_string row.updated_at;
  suspended_at = iso_or_none row.suspended_at;
  retired_at = iso_or_none row.retired_at;
}

pub record RegisterAgentArgs : Type 0 where
  pub name : String
  pub agent_class : AgentClass
  pub owner_app_id : Option String
  pub third_party_oauth_client_id : Option String

abbrev class_text : AgentClass → String
class_text AgentClass.portfolio_app = "portfolio_app"
class_text AgentClass.third_party_oauth = "third_party_oauth"
class_text AgentClass.internal_system = "internal_system"

abbrev status_text : AgentStatus → String
status_text AgentStatus.active = "active"
status_text AgentStatus.suspended = "suspended"
status_text AgentStatus.retired = "retired"

unfoldable pub agent_row : ℕ → String → RegisterAgentArgs → AgentRow
agent_row tx_now id args = record {
  id = id;
  name = args.name;
  agent_class = args.agent_class;
  owner_app_id = args.owner_app_id;
  third_party_oauth_client_id = args.third_party_oauth_client_id;
  status = AgentStatus.active;
  created_at = tx_now;
  updated_at = tx_now;
  suspended_at = none;
  retired_at = none;
}

abbrev pub has_agent_id : String → AgentRow → Bool
has_agent_id id row = row.id == id

unfoldable pub insert_agent : ℕ → String → RegisterAgentArgs → Tx Db AgentRow
unfolding agent_row
insert_agent tx_now id args db =
    if any (has_agent_id id) db.agents
    then err (internal "duplicate key: agents_pkey")
    else ok (
      agent_row tx_now id args,
      record db { agents = db.agents ++ agent_row tx_now id args ∷ [] },
    )

-- The checks of a class: a portfolio app names its owner, a third party its OAuth client.
unfoldable pub check_class : RegisterAgentArgs → Tx Db (Unit {0})
check_class args = elim args.agent_class [
  | AgentClass.portfolio_app ↦
      require (is_some (truthy_text args.owner_app_id))
        (coded "AGENT_OWNER_REQUIRED" 400 (some "owner_app_id"))
  | AgentClass.third_party_oauth ↦
      require (is_some (truthy_text args.third_party_oauth_client_id))
        (coded "AGENT_OAUTH_CLIENT_REQUIRED" 400 (some "third_party_oauth_client_id"))
  | AgentClass.internal_system ↦ pure tt
]

mint : World → Tx Db String
mint w db = ok (w.ulid db.minted, record db { minted = db.minted + 1 })

unfoldable pub registered_entry : OperatorAuditContext → String → RegisterAgentArgs → AuditEntry
unfolding operator_entry
registered_entry audit id args = operator_entry audit "agent.register" "agent" id (
    field "agent_class" (str (class_text args.agent_class)) (
      with_text "owner_app_id" args.owner_app_id
        (with_text "third_party_oauth_client_id" args.third_party_oauth_client_id end)))

unfoldable pub register_agent :
    World → OperatorAuditContext → RegisterAgentArgs → ℕ → Tx Db AgentDto
unfolding check_class insert_agent mint registered_entry to_agent_dto
register_agent w audit args tx_now = do
  check_class args
  ulid ← mint w
  row ← insert_agent tx_now (concat "agt_" ulid) args
  append_audit_entry w tx_now (registered_entry audit (concat "agt_" ulid) args)
  pure (to_agent_dto row)

abbrev dto_of : Option AgentRow → Option AgentDto
dto_of none = none
dto_of (some row) = some (to_agent_dto row)

unfoldable pub read_agent : Db → String → Option AgentDto
unfolding to_agent_dto
read_agent db id = dto_of (get_agent_by_id db.agents id)

pub record UpdateStatusArgs : Type 0 where
  pub status : Option AgentStatus
  pub name : Option String
  pub reason : Option String

-- What `suspended_at` becomes: the clock, NULL, or what it was.
abbrev new_suspended_at : ℕ → Option AgentStatus → Option ℕ → Option ℕ
new_suspended_at now (some AgentStatus.suspended) old = some now
new_suspended_at now (some AgentStatus.active) old = none
new_suspended_at now _ old = old

abbrev new_retired_at : ℕ → Option AgentStatus → Option ℕ → Option ℕ
new_retired_at now (some AgentStatus.retired) old = some now
new_retired_at now _ old = old

-- `updateAgentStatus` with the patch that the service builds; each reads the clock.
unfoldable pub updated_agent : ℕ → ℕ → UpdateStatusArgs → AgentRow → AgentRow
updated_agent now written args row = record row {
  status = args.status or_else row.status;
  name = args.name or_else row.name;
  suspended_at = new_suspended_at now args.status row.suspended_at;
  retired_at = new_retired_at now args.status row.retired_at;
  updated_at = written;
}

unfoldable pub status_entry :
    OperatorAuditContext → AgentRow → AgentStatus → Option String → AuditEntry
unfolding operator_entry
status_entry audit existing status reason =
    operator_entry audit "agent.status_change" "agent" existing.id (
      field "from" (str (status_text existing.status))
        (field "to" (str (status_text status)) (with_text "reason" reason end)))

unfoldable pub rename_entry : OperatorAuditContext → AgentRow → String → Option String → AuditEntry
unfolding operator_entry
rename_entry audit existing name reason =
    operator_entry audit "agent.rename" "agent" existing.id
      (field "from" (str existing.name) (field "to" (str name) (with_text "reason" reason end)))

abbrev pub append : World → ℕ → AuditEntry → Tx Db (Unit {0})
append w tx_now entry = append_audit_entry w tx_now entry >> pure tt

abbrev pub record_status :
    World
    → ℕ
    → OperatorAuditContext
    → AgentRow
    → Option String
    → Option AgentStatus
    → Tx Db (Unit {0})
record_status w tx_now audit existing reason none = pure tt
record_status w tx_now audit existing reason (some status) =
    append w tx_now (status_entry audit existing status reason)

abbrev pub record_name :
    World → ℕ → OperatorAuditContext → AgentRow → Option String → Option String → Tx Db (Unit {0})
record_name w tx_now audit existing reason none = pure tt
record_name w tx_now audit existing reason (some name) =
    if name == existing.name
    then pure tt
    else append w tx_now (rename_entry audit existing name reason)

abbrev pub write_agent : (AgentRow → AgentRow) → String → Db → Db
write_agent f id db = record db { agents = update_where (has_agent_id id) f db.agents }

abbrev pub change_existing :
    World
    → OperatorAuditContext
    → String
    → UpdateStatusArgs
    → ℕ
    → ℕ
    → ℕ
    → Option AgentRow
    → Tx Db (Option AgentDto)
change_existing w audit id args now written tx_now none = pure none
change_existing w audit id args now written tx_now (some existing) = do
  modify (write_agent (updated_agent now written args) id)
  record_status w tx_now audit existing args.reason args.status
  record_name w tx_now audit existing args.reason args.name
  pure (some (to_agent_dto (updated_agent now written args existing)))

unfoldable pub change_agent_status :
    World → OperatorAuditContext → String → UpdateStatusArgs → ℕ → ℕ → ℕ → Tx Db (Option AgentDto)
unfolding updated_agent status_entry rename_entry to_agent_dto
change_agent_status w audit id args now written tx_now =
    gets (λ db. get_agent_by_id db.agents id) >>= change_existing w audit id args now written tx_now
