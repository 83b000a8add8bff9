-- ===== src/Authorities/Issue/Persist.antt =====
-- What `issueAuthority` has written when it returns.
use helpan_ai.Prelude.{
  ℕ, ◌⊎◌, length, refl, eq_iff, ◌+◌, String, false, Option, none, some, List, [], ◌∷◌, ◌++◌, ◌≡◌,
  sym, ap, ◌∙◌, arith, last, any, Bool-cases, inl, inr, ◌==◌,
}
use mathlib.Core.Path.{subst}
use helpan_ai.World.{World}
use helpan_ai.Store.{Db}
use helpan_ai.Store.Rows.{DelegatedAuthorityRow}
use helpan_ai.Store.Tx.{ok, bind-eq-ok, lift-bind-eq-ok, require-bind-eq-ok}
use helpan_ai.Journal.{IsRecorded, IsRecorded-of_run}
use helpan_ai.Authorities.Types.{AuthorityAuditContext, AuthorityDto, to_dto}
use helpan_ai.Authorities.Repo.{
  InsertAuthorityInput, authority_row, insert_authority, get_agent_by_id,
}
use helpan_ai.Scopes.{ScopeClassification, requires_step_up}
use helpan_ai.Authorities.Issue.Checks.{check_classified-ok}
use helpan_ai.Authorities.Claims.{
  truthy_text, DelegatedAuthorityClaims, BuiltClaims, build_delegated_authority_claims,
}
use helpan_ai.Authorities.Conditions.{
  IssueAuthorityArgs, resolve_scopes, check_step_up, step_up_ok, step_up_failed, step_up_of,
  verify_present, StepUpVerifyResult, check_classified, agent_ok,
}
use helpan_ai.Authorities.Issue.{
  IssuanceDeps, SignResult, signed, issue_entry, issued_event, persist_issued, mint, sign_result,
  issue_authority, sign_and_persist, sign_failed, signer_of, claims_input, moment, scope_tables,
}

insert_authority-ok :
    (tx_now : ℕ) (input : InsertAuthorityInput) (db : Db) (row : DelegatedAuthorityRow) (db' : Db)
    → insert_authority tx_now input db ≡ ok (row, db')
    → (row ≡ authority_row tx_now input)
      × (any (λ (r : DelegatedAuthorityRow). r.id == input.id) db.delegated_authorities ≡ false)
      × (db' ≡ record db { delegated_authorities = db.delegated_authorities ++ row ∷ [] })
unfolding insert_authority
insert_authority-ok tx_now input db row db' h =
    elim (Bool-cases
      (any (λ (r : DelegatedAuthorityRow). r.id == input.id) db.delegated_authorities)) [
        | inl taken ↦ absurd (ground arith)
        | inr free ↦ (ground arith, free, ground arith)
      ]

abbrev pub issued_input :
    AuthorityAuditContext → IssueAuthorityArgs → BuiltClaims → Option String → InsertAuthorityInput
issued_input audit args built jti = record {
  id = built.jti;
  account_uuid = args.account_uuid;
  agent_id = args.agent_id;
  scopes = args.scopes;
  step_up_jti = jti;
  issued_by_app_id = audit.app_id;
  expires_at = built.expires_at;
}

abbrev pub built_claims :
    World
    → IssuanceDeps
    → IssueAuthorityArgs
    → ℕ
    → Db
    → List (String × String)
    → Option String
    → BuiltClaims
built_claims w deps args now db rails jti =
    build_delegated_authority_claims (w.ulid db.minted) now (claims_input deps args rails jti)

abbrev pub with_authority : DelegatedAuthorityRow → Db → Db
with_authority row db = record db { delegated_authorities = db.delegated_authorities ++ row ∷ [] }

-- The row is new, and with its audit entry and its event it is all that the transaction writes.
abbrev pub IsPersisted :
    World
    → AuthorityAuditContext
    → IssueAuthorityArgs
    → ℕ
    → ℕ
    → BuiltClaims
    → Option String
    → Db
    → DelegatedAuthorityRow
    → Db
    → Type 0
IsPersisted w audit args now tx_now built jti db row db' =
    (row ≡ authority_row tx_now (issued_input audit args built jti))
    × (any (λ (r : DelegatedAuthorityRow). r.id == built.jti) db.delegated_authorities ≡ false)
    × IsRecorded w tx_now (issue_entry audit args built.jti jti) (issued_event audit now row)
        (with_authority row db) db'

persist_issued-ok :
    (w : World) (audit : AuthorityAuditContext) (args : IssueAuthorityArgs) (now tx_now : ℕ)
    (built : BuiltClaims) (jti : Option String) (db : Db) (row : DelegatedAuthorityRow) (db' : Db)
    → persist_issued w audit args now tx_now built jti db ≡ ok (row, db')
    → IsPersisted w audit args now tx_now built jti db row db'
unfolding persist_issued
persist_issued-ok w audit args now tx_now built jti db row db' h =
    let (inserted, db1, inserts, h1) = bind-eq-ok (insert_authority tx_now _) _ db h in
    let (made, free, stored) = insert_authority-ok tx_now _ db inserted db1 inserts in
    let (same, (latest, newest, recorded)) =
      IsRecorded-of_run w tx_now (issue_entry audit args built.jti jti)
        (issued_event audit now inserted) inserted db1 row db' h1 in
    let stored' : db1 ≡ with_authority row db = ground arith in
    (
      same ∙ made,
      free,
      (latest, ap (λ (d : Db). last d.audit_log) (sym stored') ∙ newest, cc (recorded, stored')),
    )

-- The claim set that was signed, what was returned, and what was written.
abbrev pub IsSigned :
    World
    → IssuanceDeps
    → AuthorityAuditContext
    → IssueAuthorityArgs
    → (Db → Db)
    → ℕ
    → ℕ
    → List (String × String)
    → Option String
    → Db
    → AuthorityDto
    → Db
    → Type 0
IsSigned w deps audit args meanwhile now tx_now rails jti db dto db' =
    (sign : DelegatedAuthorityClaims → SignResult) × (token : String)
    × (row : DelegatedAuthorityRow) × (deps.signer ≡ some sign)
    × (sign (built_claims w deps args now db rails jti).claims ≡ signed token)
    × (dto ≡ to_dto row (some token))
    × IsPersisted w audit args now tx_now (built_claims w deps args now db rails jti) jti
        (meanwhile (record db { minted = db.minted + 1 })) row db'

-- The jti of the step-up token that was verified for the account, or none where no scope is
-- high-stakes.
abbrev pub IsStepUpOf :
    IssuanceDeps → IssueAuthorityArgs → List ScopeClassification → Option String → Type 0
IsStepUpOf deps args classes jti =
    ((requires_step_up classes ≡ false) × (jti ≡ none))
    ⊎ ((token : String) × (id : String) × (truthy_text args.step_up_token ≡ some token)
        × (deps.verify_step_up token ≡ step_up_ok id args.account_uuid)
        × (jti ≡ some id))

-- Everything that a successful issuance is known by: what its scopes were resolved to, the step-up
-- token, and with these the claims, the answer and the writes.
abbrev pub IsIssued :
    World
    → IssuanceDeps
    → AuthorityAuditContext
    → IssueAuthorityArgs
    → (ℕ → Db → Db)
    → ℕ
    → ℕ
    → Db
    → AuthorityDto
    → Db
    → Type 0
IsIssued w deps audit args between now tx_now db dto db' =
    (classes : List ScopeClassification) × (rails : List (String × String)) × (jti : Option String)
    × (resolve_scopes (scope_tables between db) [] args.scopes ≡ ok (classes, rails))
    × IsStepUpOf deps args classes jti
    × IsSigned w deps audit args (between (length args.scopes)) now tx_now rails jti
        (moment between (length args.scopes) db) dto db'

sign_result-ok : (r : SignResult) (token : String) → sign_result r ≡ ok token → r ≡ signed token
sign_result-ok (signed t) token h = cc
sign_result-ok (sign_failed code status) token h = absurd (cc)

signer_of-ok :
    (s : Option (DelegatedAuthorityClaims → SignResult))
    (sign : DelegatedAuthorityClaims → SignResult)
    → signer_of s ≡ ok sign
    → s ≡ some sign
signer_of-ok none sign h = absurd (cc)
signer_of-ok (some s) sign h = cc

sign_and_persist-ok :
    (w : World) (deps : IssuanceDeps) (sign : DelegatedAuthorityClaims → SignResult)
    (audit : AuthorityAuditContext) (args : IssueAuthorityArgs) (meanwhile : Db → Db)
    (now tx_now : ℕ) (rails : List (String × String)) (jti : Option String) (db : Db)
    (dto : AuthorityDto) (db' : Db)
    → deps.signer ≡ some sign
    → sign_and_persist w deps sign audit args meanwhile now tx_now rails jti db ≡ ok (dto, db')
    → IsSigned w deps audit args meanwhile now tx_now rails jti db dto db'
unfolding sign_and_persist mint
sign_and_persist-ok w deps sign audit args meanwhile now tx_now rails jti db dto db' configured h =
    let minted = record db { minted = db.minted + 1 } in
    let (token, signs, h1) =
      lift-bind-eq-ok (sign_result (sign (built_claims w deps args now db rails jti).claims)) _
        minted h in
    let (row, db2, persists, h2) =
      bind-eq-ok
        (persist_issued w audit args now tx_now (built_claims w deps args now db rails jti) jti) _
        (meanwhile minted) h1 in
    let persisted =
      persist_issued-ok w audit args now tx_now (built_claims w deps args now db rails jti) jti
        (meanwhile minted) row db2 persists in
    let same : db2 ≡ db' = ground arith in
    (
      sign,
      token,
      row,
      configured,
      sign_result-ok _ token signs,
      ground arith,
      subst
          (λ d.
            IsPersisted w audit args now tx_now (built_claims w deps args now db rails jti) jti
              (meanwhile minted) row d)
          same persisted,
    )

module _ (deps : IssuanceDeps) (args : IssueAuthorityArgs) (jti : Option String) where
  abbrev IsVerifiedAs : Option String → Type 0
  IsVerifiedAs present =
      (token : String) × (id : String) × (present ≡ some token)
      × (deps.verify_step_up token ≡ step_up_ok id args.account_uuid)
      × (jti ≡ some id)

  step_up_of-IsVerifiedAs :
      (token : String) (v : StepUpVerifyResult)
      → deps.verify_step_up token ≡ v
      → step_up_of args.account_uuid v ≡ ok jti
      → IsVerifiedAs (some token)
  step_up_of-IsVerifiedAs token step_up_failed e h = absurd (cc)
  step_up_of-IsVerifiedAs token (step_up_ok id sub) e h =
      elim (Bool-cases (sub == args.account_uuid)) [
        | inl own ↦ (
          token,
          id,
          refl,
          e ∙ ap (step_up_ok id) ((eq_iff sub args.account_uuid).0 own),
          ground (arith, own),
        )
        | inr other ↦ absurd (ground (arith, other))
      ]

  verify_present-IsVerifiedAs :
      (present : Option String)
      → verify_present deps.verify_step_up args.account_uuid present ≡ ok jti
      → IsVerifiedAs present
  verify_present-IsVerifiedAs none h = absurd (cc)
  verify_present-IsVerifiedAs (some token) h =
      step_up_of-IsVerifiedAs token (deps.verify_step_up token) refl h

  check_step_up-IsStepUpOf :
      (classes : List ScopeClassification)
      → check_step_up deps.verify_step_up classes args ≡ ok jti
      → IsStepUpOf deps args classes jti
  unfolding check_step_up
  check_step_up-IsStepUpOf classes h = elim (Bool-cases (requires_step_up classes)) [
    | inl high ↦
        inr (verify_present-IsVerifiedAs (truthy_text args.step_up_token) (ground (arith, high)))
    | inr low ↦ inl (low, ground (arith, low))
  ]

pub issue_authority-IsIssued :
    (w : World) (deps : IssuanceDeps) (audit : AuthorityAuditContext) (args : IssueAuthorityArgs)
    (between : ℕ → Db → Db) (now tx_now : ℕ) (db : Db) (dto : AuthorityDto) (db' : Db)
    → issue_authority w deps audit args between now tx_now db ≡ ok (dto, db')
    → IsIssued w deps audit args between now tx_now db dto db'
unfolding issue_authority
issue_authority-IsIssued w deps audit args between now tx_now db dto db' h =
    let (sign, configured, h1) = lift-bind-eq-ok (signer_of deps.signer) _ db h in
    let (agent, h2) =
      require-bind-eq-ok (agent_ok (get_agent_by_id db.agents args.agent_id)) _ _ db h1 in
    let (resolution, resolves, h3) =
      lift-bind-eq-ok (resolve_scopes (scope_tables between db) [] args.scopes) _ db h2 in
    let (jti, classified, h4) =
      lift-bind-eq-ok (check_classified deps.verify_step_up resolution.0 args) _ db h3 in
    let (_, _, _, _, step) = check_classified-ok deps args resolution.0 jti classified in
    (
      resolution.0,
      resolution.1,
      jti,
      resolves,
      check_step_up-IsStepUpOf deps args jti resolution.0 step,
      sign_and_persist-ok w deps sign audit args (between (length args.scopes)) now tx_now
          resolution.1 jti (moment between (length args.scopes) db) dto db'
          (signer_of-ok _ sign configured) h4,
    )
