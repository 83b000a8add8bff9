-- ===== src/Authorities/Validate/Laws.antt =====
-- When `validateAuthority` accepts a call, against the conditions of the authority itself.
use helpan_ai.Prelude.{
  ℕ, ◌+◌, ◌≤◌, ◌<◌, String, true, false, Option, none, some, List, ◌≡◌, refl, ◌↔◌, inl, inr, arith,
  Option-cases, eq_iff,
}
use helpan_ai.Time.{period_window_key}
use helpan_ai.Store.Rows.{
  AuthorityScope, AuthorityStatus, DelegatedAuthorityRow, AuthorityUsageRow, authority_is_revoked,
  authority_is_expired,
}
use helpan_ai.Authorities.Repo.{get_period_usage_minor}
use helpan_ai.Authorities.Validate.{
  TokenVerdict, throws, verified, ValidateAuthorityArgs, reject, names, covering_scope, exceeds,
  limit_rejection, covered_result, validate_row,
}

abbrev pub AtMost : ℕ → Option ℕ → Type 0
AtMost amount none = Unit
AtMost amount (some limit) = amount ≤ limit

module _ (verdict : TokenVerdict) (usage : List AuthorityUsageRow) (now : ℕ) where
  abbrev pub WithinLimits : String → AuthorityScope → Option ℕ → Type 0
  WithinLimits id scope none = Unit
  WithinLimits id scope (some amount) =
      AtMost amount scope.amount_limit_minor
      × AtMost
          (get_period_usage_minor usage id scope.scope_id (period_window_key scope.period now)
            + amount)
          scope.per_period_limit_minor

  abbrev pub Permits : DelegatedAuthorityRow → ValidateAuthorityArgs → Type 0
  Permits row args =
      (verdict ≡ verified (some row.id))
      × (row.status ≡ AuthorityStatus.active)
      × (now < row.expires_at)
      × (scope : AuthorityScope) × (covering_scope row.scopes args.intended_operation ≡ some scope)
      × WithinLimits row.id scope args.amount_minor

exceeds-AtMost :
    (amount : ℕ) (limit : Option ℕ) → exceeds amount limit ≡ false → AtMost amount limit
exceeds-AtMost amount none h = tt
exceeds-AtMost amount (some limit) h = ground arith

AtMost-exceeds :
    (amount : ℕ) (limit : Option ℕ) → AtMost amount limit → exceeds amount limit ≡ false
AtMost-exceeds amount none h = refl
AtMost-exceeds amount (some limit) h = ground arith

names-verified :
    (verdict : TokenVerdict) (id : String) → names verdict id ≡ true → verdict ≡ verified (some id)
names-verified throws id h = absurd (cc)
names-verified (verified none) id h = absurd (cc)
names-verified (verified (some jti)) id h = ground (arith, eq_iff jti id)

module _ (verdict : TokenVerdict) (usage : List AuthorityUsageRow) (now : ℕ) where
  limit_rejection-WithinLimits :
      (id : String) (scope : AuthorityScope) (amount : Option ℕ)
      → limit_rejection usage now id scope amount ≡ none
      → WithinLimits verdict usage now id scope amount
  unfolding limit_rejection
  limit_rejection-WithinLimits id scope none h = tt
  limit_rejection-WithinLimits id scope (some amount) h = (
    exceeds-AtMost _ scope.amount_limit_minor (ground arith),
    exceeds-AtMost _ scope.per_period_limit_minor (ground arith),
  )

  WithinLimits-limit_rejection :
      (id : String) (scope : AuthorityScope) (amount : Option ℕ)
      → WithinLimits verdict usage now id scope amount
      → limit_rejection usage now id scope amount ≡ none
  unfolding limit_rejection
  WithinLimits-limit_rejection id scope none h = refl
  WithinLimits-limit_rejection id scope (some amount) (p, q) =
      rw
        (
          AtMost-exceeds _ scope.amount_limit_minor p,
          AtMost-exceeds _ scope.per_period_limit_minor q,
        )
        refl

  active_of_not :
      (s : AuthorityStatus)
      → authority_is_revoked s ≡ false
      → authority_is_expired s ≡ false
      → s ≡ AuthorityStatus.active
  active_of_not AuthorityStatus.active r e = refl
  active_of_not AuthorityStatus.expired r e = absurd (cc)
  active_of_not AuthorityStatus.revoked r e = absurd (cc)

  covered_result-valid :
      (row : DelegatedAuthorityRow) (amount : Option ℕ) (found : Option AuthorityScope)
      → (covered_result usage now row amount found).valid ≡ true
      → (scope : AuthorityScope) × (found ≡ some scope)
        × WithinLimits verdict usage now row.id scope amount
  unfolding reject
  covered_result-valid row amount none h = absurd (cc)
  covered_result-valid row amount (some scope) h =
      elim (Option-cases (limit_rejection usage now row.id scope amount)) [
        | inl clear ↦ (scope, refl, limit_rejection-WithinLimits row.id scope amount clear)
        | inr (reason, limited) ↦ absurd (ground arith)
      ]

  -- A call is valid exactly when the token verifies and names the authority, the authority is
  -- active and not past its expiry, one of its scopes is the operation, and, where an amount is
  -- given, neither the limit of one call nor what is left of the period's is exceeded.
  pub validate_row-Permits :
      (row : DelegatedAuthorityRow) (args : ValidateAuthorityArgs)
      → ((validate_row verdict usage now row args).valid ≡ true)
        ↔ Permits verdict usage now row args
  unfolding validate_row reject
  validate_row-Permits row args = (only, whenever)
    where
      only :
          (validate_row verdict usage now row args).valid ≡ true
          → Permits verdict usage now row args
      only h =
          let covered : (covered_result usage now row args.amount_minor
                (covering_scope row.scopes args.intended_operation)).valid
              ≡ true =
            ground arith in
          let (scope, found, within) = covered_result-valid row args.amount_minor _ covered in
          (
            names-verified verdict row.id (ground arith),
            active_of_not row.status (ground arith) (ground arith),
            ground arith,
            scope,
            found,
            within,
          )

      whenever :
          Permits verdict usage now row args
          → (validate_row verdict usage now row args).valid ≡ true
      whenever (v, active, unexpired, scope, found, within) =
          let clear = WithinLimits-limit_rejection row.id scope args.amount_minor within in
          ground (arith, eq_iff row.id row.id)
