-- ===== src/Scopes.antt =====
-- src/modules/authorities/scopeClassifier.ts, and the lookup of src/modules/oauthScopes/repo.ts.
pub mod Limits
use helpan_ai.Prelude.{
  ℕ, String, Bool, ◌||◌, Option, none, some, List, [], ◌∷◌, ◌==◌, ltb, if◌then◌else◌, find, any,
}
use helpan_ai.Store.Rows.{OauthScopeRow}
use helpan_ai.Store.Tx.{Result, ok, err, internal}

pub record ScopeClassification : Type 0 where
  pub scope_id : String
  pub max_ttl_seconds : ℕ
  pub amount_ceiling_minor : Option ℕ
  pub period_ceiling_minor : Option ℕ
  pub is_high_stakes : Bool
  pub status : String

unfoldable pub classify_scope : OauthScopeRow → ScopeClassification
classify_scope row = record {
  scope_id = row.id;
  max_ttl_seconds = row.per_scope_max_ttl_seconds;
  amount_ceiling_minor = row.per_scope_amount_ceiling_minor;
  period_ceiling_minor = row.per_scope_period_ceiling_minor;
  is_high_stakes =
      row.elevation_friction == "high"
      || row.category == "write_money"
      || row.category == "write_identity"
      || row.category == "read_behavioural";
  status = row.status;
}

-- The running minimum; `none` is Infinity.
tightest_from : Option ℕ → List ScopeClassification → Option ℕ
tightest_from min [] = min
tightest_from none (c ∷ cs) = tightest_from (some c.max_ttl_seconds) cs
tightest_from (some min) (c ∷ cs) =
    tightest_from (some (if ltb c.max_ttl_seconds min then c.max_ttl_seconds else min)) cs

-- The minimum of a set that is not empty is not Infinity: the last case does not arise.
abbrev tightest_result : Option ℕ → Result ℕ
tightest_result none = err (internal "tightestTtlSeconds: empty classification set")
tightest_result (some min) = ok min

unfoldable pub tightest_ttl_seconds : List ScopeClassification → Result ℕ
unfolding tightest_from
tightest_ttl_seconds classifications = tightest_result (tightest_from none classifications)

unfoldable pub requires_step_up : List ScopeClassification → Bool
requires_step_up classifications = any (λ c. c.is_high_stakes) classifications

unfoldable pub get_scope_by_id : List OauthScopeRow → String → Option OauthScopeRow
get_scope_by_id rows id = find (λ r. r.id == id) rows
