-- ===== src/Authorities/Conditions.antt =====
-- The conditions of `issueAuthority` (src/modules/authorities/service.ts, steps 2 to 6): the
-- scopes that are asked for, the TTL, the ceilings and the step-up token.
pub mod Classes
use helpan_ai.Prelude.{
  ℕ, suc, ◌+◌, String, Bool, false, Option, none, some, List, [], ◌∷◌, ◌==◌, ltb, if◌then◌else◌,
  ◌or_else◌,
}
use helpan_ai.Store.Rows.{AgentRow, OauthScopeRow, AuthorityScope, agent_is_active, scope_is_active}
use helpan_ai.Store.Tx.{coded, internal, Result, ok, err, ◌>>=◌, ◌>>◌}
use helpan_ai.Scopes.{
  ScopeClassification, classify_scope, tightest_ttl_seconds, requires_step_up, get_scope_by_id,
}
use helpan_ai.Authorities.Claims.{truthy_text}

pub data StepUpVerifyResult : Type 0 where
  step_up_ok : String → String → StepUpVerifyResult
  step_up_failed : StepUpVerifyResult

pub record IssueAuthorityArgs : Type 0 where
  pub account_uuid : String
  pub agent_id : String
  pub scopes : List AuthorityScope
  pub ttl_seconds : ℕ
  pub step_up_token : Option String

abbrev pub agent_ok : Option AgentRow → Bool
agent_ok none = false
agent_ok (some agent) = agent_is_active agent.status

abbrev pub ResolvedScopes : Type 0
ResolvedScopes = List ScopeClassification × List (String × String)

abbrev pub resolved :
    AuthorityScope → Option OauthScopeRow → Result ResolvedScopes → Result ResolvedScopes
resolved s none rest = err (coded "SCOPE_INVALID" 400 (some "scopes"))
resolved s (some row) rest =
    if scope_is_active row
    then elim rest [ ok (cs, rails) ↦ ok (classify_scope row ∷ cs, rails) | err e ↦ err e ]
    else err (coded "SCOPE_INVALID" 400 (some "scopes"))

-- The loop that resolves and classifies each scope. `scopeRails` is a plain object: reads see the
-- last write, so the writes stand in reverse. Each scope is a read of its own: `tables n` is the
-- table at the n-th.
unfoldable pub resolve_scopes :
    (ℕ → List OauthScopeRow) → List (String × String) → List AuthorityScope → Result ResolvedScopes
resolve_scopes tables rails [] = ok ([], rails)
resolve_scopes tables rails (s ∷ scopes) =
    let found = get_scope_by_id (tables 0) s.scope_id in
    let rail : String = elim found [ none ↦ "" | some row ↦ row.rail ] in
    let rest = resolve_scopes (λ n. tables (suc n)) ((s.scope_id, rail) ∷ rails) scopes in
    resolved s found rest

-- `new Map(classifications.map((c) => [c.scopeId, c])).get(id)`: the last entry with the key.
unfoldable pub class_by_id : List ScopeClassification → String → Option ScopeClassification
class_by_id [] id = none
class_by_id (c ∷ cs) id = elim (class_by_id cs id) [
  | some later ↦ some later
  | none ↦ if c.scope_id == id then some c else none
]

abbrev pub above : Option ℕ → Option ℕ → Bool
above (some limit) (some ceiling) = ltb ceiling limit
above _ _ = false

abbrev pub within_class : AuthorityScope → Option ScopeClassification → Result (Unit {0})
within_class s none = err (internal "TypeError: undefined classification")
within_class s (some c) =
    if above s.amount_limit_minor c.amount_ceiling_minor
    then err (coded "AMOUNT_EXCEEDS_SCOPE_CEILING" 400 (some "scopes"))
    else if above s.per_period_limit_minor c.period_ceiling_minor
    then err (coded "AMOUNT_EXCEEDS_SCOPE_CEILING" 400 (some "scopes"))
    else ok tt

unfoldable pub check_ceilings : List ScopeClassification → List AuthorityScope → Result (Unit {0})
check_ceilings cs [] = ok tt
check_ceilings cs (s ∷ scopes) = elim (within_class s (class_by_id cs s.scope_id)) [
  | ok _ ↦ check_ceilings cs scopes
  | err e ↦ err e
]

abbrev pub step_up_of : String → StepUpVerifyResult → Result (Option String)
step_up_of account step_up_failed = err (coded "STEP_UP_TOKEN_INVALID" 401 none)
step_up_of account (step_up_ok jti sub) =
    if sub == account then ok (some jti) else err (coded "STEP_UP_TOKEN_INVALID" 401 none)

abbrev pub verify_present :
    (String → StepUpVerifyResult) → String → Option String → Result (Option String)
verify_present verify account none = err (coded "STEP_UP_REQUIRED" 401 none)
verify_present verify account (some token) = step_up_of account (verify token)

-- The jti of the step-up token, where a high-stakes scope asks for one.
unfoldable pub check_step_up :
    (String → StepUpVerifyResult)
    → List ScopeClassification
    → IssueAuthorityArgs
    → Result (Option String)
check_step_up verify cs args =
    if requires_step_up cs
    then verify_present verify args.account_uuid (truthy_text args.step_up_token)
    else ok none

-- Steps 4 to 6: the TTL, the ceilings and the step-up token.
unfoldable pub check_classified :
    (String → StepUpVerifyResult)
    → List ScopeClassification
    → IssueAuthorityArgs
    → Result (Option String)
unfolding check_ceilings
check_classified verify cs args = elim (tightest_ttl_seconds cs) [
  | err e ↦ err e
  | ok ttl_max ↦
      if ltb ttl_max args.ttl_seconds
      then err (coded "TTL_EXCEEDS_MAX" 400 (some "ttl_seconds"))
      else elim (check_ceilings cs args.scopes) [
        | err e ↦ err e
        | ok _ ↦ check_step_up verify cs args
      ]
]
