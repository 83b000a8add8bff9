-- ===== src/Authorities/Validate.antt =====
-- `validateAuthority` of src/modules/authorities/service.ts: a query that writes nothing.
pub mod Laws
use helpan_ai.Prelude.{
  ℕ, ◌+◌, String, Bool, true, false, not, ◌||◌, Option, none, some, List, ◌==◌, ltb, leb, find,
  if◌then◌else◌, is_some,
}
use helpan_ai.Time.{period_window_key}
use helpan_ai.Store.{Db}
use helpan_ai.Store.Rows.{
  AuthorityScope, AuthorityStatus, DelegatedAuthorityRow, AuthorityUsageRow, authority_is_revoked,
  authority_is_expired,
}
use helpan_ai.Store.Tx.{Result, ok, err, coded}
use helpan_ai.Authorities.Repo.{get_authority_by_id, get_period_usage_minor}
use helpan_ai.Authorities.Types.{
  AuthorityDto, to_dto, RejectionReason, token_invalid_signature, token_expired, token_revoked,
  scope_not_covered, amount_exceeds_limit, period_limit_exhausted,
}

-- `jwtVerify` of jose, for one key resolver, issuer and algorithm list: it throws, or returns the
-- payload, of which the service reads `jti` where that is a text.
pub data TokenVerdict : Type 0 where
  throws : TokenVerdict
  verified : Option String → TokenVerdict

pub record ValidateAuthorityArgs : Type 0 where
  pub token : String
  pub intended_operation : String
  pub amount_minor : Option ℕ

pub record ValidateAuthorityResult : Type 0 where
  pub valid : Bool
  pub status : AuthorityStatus
  pub scope_covers : Bool
  pub within_limits : Bool
  pub authority : AuthorityDto
  pub rejection_reason : Option RejectionReason

abbrev is_limit_reason : RejectionReason → Bool
is_limit_reason amount_exceeds_limit = true
is_limit_reason period_limit_exhausted = true
is_limit_reason _ = false

unfoldable pub reject : DelegatedAuthorityRow → RejectionReason → ValidateAuthorityResult
reject row reason = record {
  valid = false;
  status = row.status;
  scope_covers = is_limit_reason reason;
  within_limits = false;
  authority = to_dto row none;
  rejection_reason = some reason;
}

abbrev pub names : TokenVerdict → String → Bool
names throws id = false
names (verified none) id = false
names (verified (some jti)) id = jti == id

unfoldable pub covering_scope : List AuthorityScope → String → Option AuthorityScope
covering_scope scopes operation = find (λ s. s.scope_id == operation) scopes

abbrev exceeds : ℕ → Option ℕ → Bool
exceeds amount none = false
exceeds amount (some limit) = ltb limit amount

-- The limit checks of one covering scope; `none` is no rejection. They run only when an amount is
-- supplied, and the period limit is looked at only behind the limit of one call.
unfoldable pub limit_rejection :
    List AuthorityUsageRow → ℕ → String → AuthorityScope → Option ℕ → Option RejectionReason
limit_rejection usage now id scope none = none
limit_rejection usage now id scope (some amount) =
    if exceeds amount scope.amount_limit_minor
    then some amount_exceeds_limit
    else if exceeds
        (get_period_usage_minor usage id scope.scope_id (period_window_key scope.period now)
          + amount)
        scope.per_period_limit_minor
    then some period_limit_exhausted
    else none

abbrev expired_result : DelegatedAuthorityRow → ValidateAuthorityResult
expired_result row = record (reject row token_expired) { status = AuthorityStatus.expired }

abbrev limit_result : DelegatedAuthorityRow → Option RejectionReason → ValidateAuthorityResult
limit_result row reason = record {
  valid = not (is_some reason);
  status = AuthorityStatus.active;
  scope_covers = true;
  within_limits = not (is_some reason);
  authority = to_dto row none;
  rejection_reason = reason;
}

abbrev covered_result :
    List AuthorityUsageRow
    → ℕ
    → DelegatedAuthorityRow
    → Option ℕ
    → Option AuthorityScope
    → ValidateAuthorityResult
covered_result usage now row amount none = reject row scope_not_covered
covered_result usage now row amount (some scope) =
    limit_result row (limit_rejection usage now row.id scope amount)

-- The checks on a row that was found, in their order.
unfoldable pub validate_row :
    TokenVerdict
    → List AuthorityUsageRow
    → ℕ
    → DelegatedAuthorityRow
    → ValidateAuthorityArgs
    → ValidateAuthorityResult
unfolding reject limit_rejection
validate_row verdict usage now row args =
    if not (names verdict row.id)
    then reject row token_invalid_signature
    else if authority_is_revoked row.status
    then reject row token_revoked
    else if leb row.expires_at now || authority_is_expired row.status
    then expired_result row
    else covered_result usage now row args.amount_minor
        (covering_scope row.scopes args.intended_operation)

abbrev validate_found :
    TokenVerdict
    → List AuthorityUsageRow
    → ℕ
    → Option DelegatedAuthorityRow
    → ValidateAuthorityArgs
    → Result ValidateAuthorityResult
validate_found verdict usage now none args = err (coded "AUTHORITY_NOT_FOUND" 404 none)
validate_found verdict usage now (some row) args = ok (validate_row verdict usage now row args)

unfoldable pub validate_authority :
    (String → TokenVerdict)
    → Db
    → ℕ
    → String
    → ValidateAuthorityArgs
    → Result ValidateAuthorityResult
validate_authority verify db now id args =
    validate_found (verify args.token) db.authority_usage now
      (get_authority_by_id db.delegated_authorities id) args
