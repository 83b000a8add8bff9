-- ===== src/Authorities/Issue/Checks.antt =====
-- What `issueAuthority` has checked when it returns.
use helpan_ai.Prelude.{
  ℕ, length, ◌≤◌, String, true, false, Option, none, some, List, [], ◌∷◌, ◌≡◌, refl, sym, ap, ◌∙◌,
  ◌⊎◌, inl, inr, arith, All, eq_iff, Bool-cases,
}
use mathlib.Core.Path.{subst}
use helpan_ai.World.{World}
use helpan_ai.Store.{Db}
use helpan_ai.Store.Rows.{OauthScopeRow, AuthorityScope, scope_is_active}
use helpan_ai.Store.Tx.{Result-cases, ok, lift-bind-eq-ok, require-bind-eq-ok}
use helpan_ai.Scopes.{ScopeClassification, classify_scope, tightest_ttl_seconds, requires_step_up}
use helpan_ai.Scopes.Limits.{TtlWithin, tightest_ttl_seconds-le}
use helpan_ai.Authorities.Types.{AuthorityAuditContext, AuthorityDto}
use helpan_ai.Authorities.Repo.{get_agent_by_id}
use helpan_ai.Authorities.Claims.{truthy_text}
use helpan_ai.Authorities.Issue.{IssuanceDeps, issue_authority, signer_of, scope_tables}
use helpan_ai.Authorities.Conditions.{
  StepUpVerifyResult, step_up_ok, step_up_failed, agent_ok, resolve_scopes, class_by_id, above,
  within_class, check_ceilings, check_classified, check_step_up, step_up_of, verify_present,
  IssueAuthorityArgs,
}
use helpan_ai.Authorities.Conditions.Classes.{
  IsRead, FromActiveRow, resolve_scopes-FromActiveRow, class_by_id-All, class_by_id-any,
  All-TtlWithin-le,
}

module _ (deps : IssuanceDeps) (args : IssueAuthorityArgs) where
  abbrev pub StepUpVerified : Type 0
  StepUpVerified =
      (token : String) × (jti : String) × (sub : String) × (truthy_text args.step_up_token
        ≡ some token)
      × (deps.verify_step_up token ≡ step_up_ok jti sub)
      × (sub ≡ args.account_uuid)

  abbrev pub IsAllowed : (ℕ → List OauthScopeRow) → ℕ → AuthorityScope → Type 0
  IsAllowed tables reads s =
      (row : OauthScopeRow) × IsRead tables reads s.scope_id row
      × (scope_is_active row ≡ true)
      × (args.ttl_seconds ≤ row.per_scope_max_ttl_seconds)
      × (above s.amount_limit_minor row.per_scope_amount_ceiling_minor ≡ false)
      × (above s.per_period_limit_minor row.per_scope_period_ceiling_minor ≡ false)
      × (((classify_scope row).is_high_stakes ≡ false) ⊎ StepUpVerified)

  verify_present-verified :
      (token : Option String) (jti : Option String)
      → verify_present deps.verify_step_up args.account_uuid token ≡ ok jti
      → (t : String) × (j : String) × (sub : String) × (token ≡ some t)
        × (deps.verify_step_up t ≡ step_up_ok j sub)
        × (sub ≡ args.account_uuid)
  verify_present-verified none jti h = absurd (cc)
  verify_present-verified (some t) jti h = go (deps.verify_step_up t) refl h
    where
      go :
          (v : StepUpVerifyResult)
          → deps.verify_step_up t ≡ v
          → step_up_of args.account_uuid v ≡ ok jti
          → (t' : String) × (j : String) × (sub : String) × (some t ≡ some t')
            × (deps.verify_step_up t' ≡ step_up_ok j sub)
            × (sub ≡ args.account_uuid)
      go (step_up_ok j sub) e k = (t, j, sub, refl, e, ground (arith, eq_iff sub args.account_uuid))
      go step_up_failed e k = absurd (cc)

  check_step_up-verified :
      (cs : List ScopeClassification) (jti : Option String)
      → check_step_up deps.verify_step_up cs args ≡ ok jti
      → (requires_step_up cs ≡ false) ⊎ StepUpVerified
  unfolding check_step_up
  check_step_up-verified cs jti h = elim (Bool-cases (requires_step_up cs)) [
    | inl high ↦ inr (verify_present-verified (truthy_text args.step_up_token) jti (ground arith))
    | inr low ↦ inl low
  ]

  abbrev WithinClass : List ScopeClassification → AuthorityScope → Type 0
  WithinClass cs s =
      (c : ScopeClassification) × (class_by_id cs s.scope_id ≡ some c)
      × (above s.amount_limit_minor c.amount_ceiling_minor ≡ false)
      × (above s.per_period_limit_minor c.period_ceiling_minor ≡ false)

  within_class-ok :
      (cs : List ScopeClassification) (s : AuthorityScope) (found : Option ScopeClassification)
      → class_by_id cs s.scope_id ≡ found
      → within_class s found ≡ ok tt
      → WithinClass cs s
  within_class-ok cs s none f h = absurd (cc)
  within_class-ok cs s (some c) f h = (c, f, ground arith, ground arith)

  check_ceilings-All :
      (cs : List ScopeClassification) (scopes : List AuthorityScope)
      → check_ceilings cs scopes ≡ ok tt
      → All (WithinClass cs) scopes
  unfolding check_ceilings
  check_ceilings-All cs [] h = tt
  check_ceilings-All cs (s ∷ scopes) h =
      elim (Result-cases (within_class s (class_by_id cs s.scope_id))) [
        | inl (u, e) ↦ (
          within_class-ok cs s _ refl e,
          check_ceilings-All cs scopes (rw (e, check_ceilings) at h),
        )
        | inr (x, e) ↦ absurd (ground arith)
      ]

  pub check_classified-ok :
      (cs : List ScopeClassification) (jti : Option String)
      → check_classified deps.verify_step_up cs args ≡ ok jti
      → (ttl_max : ℕ) × (tightest_ttl_seconds cs ≡ ok ttl_max)
        × (args.ttl_seconds ≤ ttl_max)
        × (check_ceilings cs args.scopes ≡ ok tt)
        × (check_step_up deps.verify_step_up cs args ≡ ok jti)
  unfolding check_classified
  check_classified-ok cs jti h = elim (Result-cases (tightest_ttl_seconds cs)) [
    | inl (ttl_max, e) ↦ (ttl_max, e, ground arith, ground arith, ground arith)
    | inr (x, e) ↦ absurd (ground arith)
  ]

  IsAllowed-of_class :
      (tables : ℕ → List OauthScopeRow) (reads : ℕ) (cs : List ScopeClassification)
      → All (FromActiveRow tables reads) cs
      → All (TtlWithin args.ttl_seconds) cs
      → (requires_step_up cs ≡ false) ⊎ StepUpVerified
      → (s : AuthorityScope) → WithinClass cs s
      → IsAllowed tables reads s
  unfolding classify_scope requires_step_up
  IsAllowed-of_class tables reads cs from ttl step s (c, found, amount, period) =
      let ((row, stored, active, made), same) =
        class_by_id-All (FromActiveRow tables reads) cs s.scope_id c from found in
      let (within, _) = class_by_id-All (TtlWithin args.ttl_seconds) cs s.scope_id c ttl found in
      (
        row,
        subst (λ i. IsRead tables reads i row) same stored,
        active,
        ground arith,
        ground arith,
        ground arith,
        elim step [
          | inl low ↦ inl (
              ap (λ (k : ScopeClassification). k.is_high_stakes) (sym made)
              ∙ class_by_id-any (λ k. k.is_high_stakes) cs s.scope_id c found low)
          | inr verified ↦ inr verified
        ],
      )

  All-IsAllowed :
      (tables : ℕ → List OauthScopeRow) (reads : ℕ) (cs : List ScopeClassification)
      → All (FromActiveRow tables reads) cs
      → All (TtlWithin args.ttl_seconds) cs
      → (requires_step_up cs ≡ false) ⊎ StepUpVerified
      → (scopes : List AuthorityScope) → All (WithinClass cs) scopes
      → All (IsAllowed tables reads) scopes
  All-IsAllowed tables reads cs from ttl step [] h = tt
  All-IsAllowed tables reads cs from ttl step (s ∷ scopes) (k, h) = (
    IsAllowed-of_class tables reads cs from ttl step s k,
    All-IsAllowed tables reads cs from ttl step scopes h,
  )

-- When an issuance returns, whatever other transactions did between its reads and before it wrote,
-- the agent was there and active when it was read; each granted scope was found registered and
-- active by one of the scope reads, with a maximum TTL that the TTL is within, ceilings that the
-- limits are within, and either it was not a high-stakes scope or a step-up token for the account
-- was verified.
pub issue_authority-IsAllowed :
    (w : World) (deps : IssuanceDeps) (audit : AuthorityAuditContext) (args : IssueAuthorityArgs)
    (between : ℕ → Db → Db) (now tx_now : ℕ) (db : Db) (dto : AuthorityDto) (db' : Db)
    → issue_authority w deps audit args between now tx_now db ≡ ok (dto, db')
    → (agent_ok (get_agent_by_id db.agents args.agent_id) ≡ true)
      × All (IsAllowed deps args (scope_tables between db) (length args.scopes)) args.scopes
unfolding issue_authority
issue_authority-IsAllowed w deps audit args between now tx_now db dto db' h =
    let (sign, configured, h1) = lift-bind-eq-ok (signer_of deps.signer) _ db h in
    let (agent, h2) = require-bind-eq-ok _ _ _ db h1 in
    let (resolution, resolves, h3) =
      lift-bind-eq-ok (resolve_scopes (scope_tables between db) [] args.scopes) _ db h2 in
    let (jti, classified, h4) =
      lift-bind-eq-ok (check_classified deps.verify_step_up resolution.0 args) _ db h3 in
    let (ttl_max, tightest, ttl, ceilings, step) =
      check_classified-ok deps args resolution.0 jti classified in
    (
      agent,
      All-IsAllowed deps args (scope_tables between db) (length args.scopes) resolution.0
          (resolve_scopes-FromActiveRow (scope_tables between db) args.scopes [] resolution.0
            resolution.1 resolves)
          (All-TtlWithin-le args.ttl_seconds ttl_max resolution.0 ttl
            (tightest_ttl_seconds-le resolution.0 ttl_max tightest))
          (check_step_up-verified deps args resolution.0 jti step) args.scopes
          (check_ceilings-All deps args resolution.0 args.scopes ceilings),
    )
