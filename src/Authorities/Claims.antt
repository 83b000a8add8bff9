-- ===== src/Authorities/Claims.antt =====
-- src/modules/authorities/claimBuilder.ts: the claim set that Identiti signs.
pub mod Audience
use Prim.Native.String.{◌++◌ as concat}
use helpan_ai.Prelude.{
  ℕ, ◌+◌, ◌*◌, ◌/◌, String, true, false, Option, none, some, List, [], ◌∷◌, ◌++◌, map, ◌==◌, any,
  if◌then◌else◌,
}
use helpan_ai.Store.Rows.{AuthorityScope}

pub record DelegatedAuthorityClaims : Type 0 where
  pub iss : String
  pub aud : List String
  pub sub : String
  pub iat : ℕ
  pub exp : ℕ
  pub jti : String
  pub token_class : String
  pub actor_agent_id : String
  pub initiated_by : String
  pub scopes : List AuthorityScope
  pub step_up_jti : Option String
  pub revocation_endpoint : String

pub record BuildClaimsInput : Type 0 where
  pub issuer : String
  pub helpan_audience : String
  pub account_uuid : String
  pub agent_id : String
  pub ttl_seconds : ℕ
  pub scopes : List AuthorityScope
  -- Rail of each scope by scope id: the plain object `scopeRails`, the last write in front.
  pub scope_rails : List (String × String)
  pub step_up_jti : Option String

pub record BuiltClaims : Type 0 where
  pub jti : String
  pub claims : DelegatedAuthorityClaims
  pub issued_at : ℕ
  pub expires_at : ℕ

unfoldable pub rail_audience : String → Option String
rail_audience rail =
    if rail == "kipkiren_pay"
    then some "https://api.pay.kipkiren.co.ke"
    else if rail == "identiti"
    then some "https://api.identiti.co.ke"
    else if rail == "todoku"
    then some "https://api.todoku.co.ke"
    else none

unfoldable pub rail_of : List (String × String) → String → Option String
rail_of [] id = none
rail_of ((j, rail) ∷ rest) id = elim (j == id) [ true ↦ some rail | false ↦ rail_of rest id ]

-- `Set.add`: a set keeps the order of first insertion.
unfoldable pub add_to_set : String → List String → List String
add_to_set s set = if any (λ t. t == s) set then set else set ++ s ∷ []

-- What one scope adds: the audience of its rail, if its rail has one.
unfoldable pub scope_audience : List (String × String) → AuthorityScope → Option String
unfolding rail_of rail_audience
scope_audience rails s = elim (rail_of rails s.scope_id) [
  | none ↦ none
  | some rail ↦ rail_audience rail
]

abbrev add_audience : Option String → List String → List String
add_audience none aud = aud
add_audience (some a) aud = add_to_set a aud

audience_from : List (String × String) → List String → List AuthorityScope → List String
audience_from rails aud [] = aud
audience_from rails aud (s ∷ scopes) =
    audience_from rails (add_audience (scope_audience rails s) aud) scopes

unfoldable pub build_audience : String → List AuthorityScope → List (String × String) → List String
unfolding audience_from
build_audience helpan scopes rails = audience_from rails (helpan ∷ []) scopes

abbrev drop_empty : Option (List String) → Option (List String)
drop_empty none = none
drop_empty (some []) = none
drop_empty (some (x ∷ xs)) = some (x ∷ xs)

unfoldable pub normalise_scope : AuthorityScope → AuthorityScope
normalise_scope s = record s {
  category_whitelist = drop_empty s.category_whitelist;
  recipient_whitelist = drop_empty s.recipient_whitelist;
}

-- `if (input.stepUpJti)`: an empty text counts as absent.
abbrev pub truthy_text : Option String → Option String
truthy_text none = none
truthy_text (some s) = if s == "" then none else some s

unfoldable pub build_delegated_authority_claims : String → ℕ → BuildClaimsInput → BuiltClaims
unfolding build_audience normalise_scope
build_delegated_authority_claims ulid now input =
    let iat = now / 1000 in
    let exp = iat + input.ttl_seconds in
    let jti = concat "daa_" ulid in
    record {
      jti = jti;
      claims = record {
        iss = input.issuer;
        aud = build_audience input.helpan_audience input.scopes input.scope_rails;
        sub = input.account_uuid;
        iat = iat;
        exp = exp;
        jti = jti;
        token_class = "delegated_authority";
        actor_agent_id = input.agent_id;
        initiated_by = "agent";
        scopes = map normalise_scope input.scopes;
        step_up_jti = truthy_text input.step_up_jti;
        revocation_endpoint =
            concat input.helpan_audience (concat "/v1/authorities/" (concat jti "/validate"));
      };
      issued_at = iat * 1000;
      expires_at = exp * 1000;
    }
