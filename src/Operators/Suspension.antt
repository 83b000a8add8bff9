-- ===== src/Operators/Suspension.antt =====
-- An agent that an operator has suspended or retired, and the issuance of authorities.
use helpan_ai.Prelude.{
  [], ◌∷◌, ◌≢◌, Bool-cases, ◌or_else◌, ℕ, String, Bool, true, false, Option, none, some,
  Option-cases, List, ◌≡◌, refl, sym, ap, ◌∙◌, arith, find, update_where, update_where-eq_self,
  any-find-none, ◌==◌, inl, inr, if◌then◌else◌,
}
use helpan_ai.World.{World}
use helpan_ai.Store.{Db}
use helpan_ai.Store.Rows.{AgentRow, AgentStatus, agent_is_active}
use helpan_ai.Store.Tx.{ok, err, coded, pure, bind-eq-ok}
use helpan_ai.Audit.{append_audit_entry}
use helpan_ai.Audit.Hash.{AuditEntry}
use helpan_ai.Audit.Chain.{append_audit_entry-ok}
use helpan_ai.Authorities.Types.{AuthorityAuditContext}
use helpan_ai.Authorities.Repo.{get_agent_by_id}
use helpan_ai.Authorities.Conditions.{agent_ok, IssueAuthorityArgs}
use helpan_ai.Authorities.Claims.{DelegatedAuthorityClaims}
use helpan_ai.Authorities.Issue.{IssuanceDeps, SignResult, issue_authority}
use helpan_ai.Operators.Audited.{OperatorAuditContext}
use helpan_ai.Operators.Agents.{
  UpdateStatusArgs, AgentDto, has_agent_id, updated_agent, append, record_status, record_name,
  write_agent, change_existing, change_agent_status, status_entry, rename_entry,
}

append-agents :
    (w : World) (tx_now : ℕ) (e : AuditEntry) (db : Db) (u : Unit {0}) (db' : Db)
    → append w tx_now e db ≡ ok (u, db')
    → db'.agents ≡ db.agents
append-agents w tx_now e db u db' h =
    let (entry, db1, appends, ends) =
      bind-eq-ok (append_audit_entry w tx_now e) (λ _. pure tt) db h in
    let (latest, found, same) = append_audit_entry-ok w tx_now e db appends in
    let last : db1 ≡ db' = cc in ap (λ (d : Db). d.agents) (sym last ∙ same)

module _ (w : World) (tx_now : ℕ) (audit : OperatorAuditContext) (existing : AgentRow)
    (reason : Option String) (db : Db) (u : Unit {0}) (db' : Db) where
  record_status-agents :
      (status : Option AgentStatus)
      → record_status w tx_now audit existing reason status db ≡ ok (u, db')
      → db'.agents ≡ db.agents
  record_status-agents none h = let same : db ≡ db' = cc in ap (λ (d : Db). d.agents) (sym same)
  record_status-agents (some status) h =
      append-agents w tx_now (status_entry audit existing status reason) db u db' h

  unless-agents :
      (test : Bool) (e : AuditEntry)
      → (if test then pure tt else append w tx_now e) db ≡ ok (u, db')
      → db'.agents ≡ db.agents
  unless-agents true e h = let same : db ≡ db' = cc in ap (λ (d : Db). d.agents) (sym same)
  unless-agents false e h = append-agents w tx_now e db u db' h

  record_name-agents :
      (name : Option String)
      → record_name w tx_now audit existing reason name db ≡ ok (u, db')
      → db'.agents ≡ db.agents
  record_name-agents none h = let same : db ≡ db' = cc in ap (λ (d : Db). d.agents) (sym same)
  record_name-agents (some name) h =
      unless-agents (name == existing.name) (rename_entry audit existing name reason) h

-- The agents after a change that returned.
change_agent_status-agents :
    (w : World) (audit : OperatorAuditContext) (id : String) (args : UpdateStatusArgs)
    (now written tx_now : ℕ) (db : Db) (o : Option AgentDto) (db' : Db)
    → change_agent_status w audit id args now written tx_now db ≡ ok (o, db')
    → db'.agents ≡ update_where (has_agent_id id) (updated_agent now written args) db.agents
unfolding change_agent_status get_agent_by_id
change_agent_status-agents w audit id args now written tx_now db o db' h =
    elim (Option-cases (find (has_agent_id id) db.agents)) [
      | inl missing ↦
          let run : change_existing w audit id args now written tx_now none db ≡ ok (o, db') =
            ap (λ x. change_existing w audit id args now written tx_now x db) (sym missing) ∙ h in
          let same : db ≡ db' = cc in
          ap (λ (d : Db). d.agents) (sym same)
          ∙ sym (
              update_where-eq_self (has_agent_id id) (updated_agent now written args) db.agents
                (any-find-none (has_agent_id id) db.agents missing))
      | inr (existing, found) ↦
          let run : change_existing w audit id args now written tx_now (some existing) db
              ≡ ok (o, db') =
            ap (λ x. change_existing w audit id args now written tx_now x db) (sym found) ∙ h in
          let changed = write_agent (updated_agent now written args) id db in
          let (u, db1, statuses, h1) =
            bind-eq-ok (record_status w tx_now audit existing args.reason args.status) _ changed
              run in
          let (v, db2, names, h2) =
            bind-eq-ok (record_name w tx_now audit existing args.reason args.name) _ db1 h1 in
          let last : db2 ≡ db' = cc in
          ap (λ (d : Db). d.agents) (sym last)
          ∙ record_name-agents w tx_now audit existing args.reason db1 v db2 args.name names
          ∙ record_status-agents w tx_now audit existing args.reason changed u db1 args.status
              statuses
    ]

-- An inactive agent, as `issueAuthority` reads it.
inactive_agent :
    (id : String) (args : UpdateStatusArgs) (now written : ℕ) (rows : List AgentRow)
    (status : AgentStatus)
    → args.status ≡ some status
    → agent_is_active status ≡ false
    → agent_ok
        (get_agent_by_id (update_where (has_agent_id id) (updated_agent now written args) rows) id)
      ≡ false
unfolding get_agent_by_id updated_agent
inactive_agent id args now written [] status given inactive = refl
inactive_agent id args now written (row ∷ rows) status given inactive =
    elim (Bool-cases (has_agent_id id row)) [
      | inl hit ↦
          let stays : agent_is_active (args.status or_else row.status) ≡ false =
            ap (λ o. agent_is_active (o or_else row.status)) given ∙ inactive in
          rw (hit, update_where) (ground (arith, hit, stays))
      | inr miss ↦ ground (arith, inactive_agent id args now written rows status given inactive)
    ]

not_active : (s : AgentStatus) → s ≢ AgentStatus.active → agent_is_active s ≡ false
not_active AgentStatus.active h = absurd (h refl)
not_active AgentStatus.suspended h = refl
not_active AgentStatus.retired h = refl

-- Once an operator has set an agent's status to another than active and the change has returned, a
-- request for an authority that reads the agent as the change left it fails as AGENT_INVALID, where
-- the signer is configured and whatever other transactions do meanwhile. A request that has read
-- the agent before the change is not stopped.
pub change-issue_authority :
    (w : World) (audit : OperatorAuditContext) (id : String) (args : UpdateStatusArgs)
    (now written tx_now : ℕ) (db : Db) (o : Option AgentDto) (db' : Db) (status : AgentStatus)
    → change_agent_status w audit id args now written tx_now db ≡ ok (o, db')
    → args.status ≡ some status
    → status ≢ AgentStatus.active
    → (deps : IssuanceDeps) (sign : DelegatedAuthorityClaims → SignResult)
      (context : AuthorityAuditContext) (grant : IssueAuthorityArgs) (later tx_later : ℕ)
    → deps.signer ≡ some sign
    → grant.agent_id ≡ id
    → (between : ℕ → Db → Db) (start : Db)
    → get_agent_by_id start.agents id ≡ get_agent_by_id db'.agents id
    → issue_authority w deps context grant between later tx_later start
      ≡ err (coded "AGENT_INVALID" 400 (some "agent_id"))
unfolding issue_authority
change-issue_authority w audit id args now written tx_now db o db' status h given inactive deps sign
      context grant later tx_later configured named between start read =
    let refused : agent_ok (get_agent_by_id start.agents grant.agent_id) ≡ false =
      ap (λ i. agent_ok (get_agent_by_id start.agents i)) named
      ∙ ap agent_ok read
      ∙ ap (λ rows. agent_ok (get_agent_by_id rows id))
          (change_agent_status-agents w audit id args now written tx_now db o db' h)
      ∙ inactive_agent id args now written db.agents status given (not_active status inactive) in
    ground (arith, configured, refused)
