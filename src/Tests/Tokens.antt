-- ===== src/Tests/Tokens.antt =====
-- The claim set of a token at a concrete input.
use helpan_ai.Prelude.{none, [], ◌∷◌, ◌≡◌, refl, ◌||◌, ◌==◌, any}
use helpan_ai.Store.Rows.{AuthorityScope}
use helpan_ai.Authorities.Claims.{
  add_to_set, scope_audience, BuildClaimsInput, build_delegated_authority_claims, build_audience,
}
use helpan_ai.Authorities.Claims.Audience.{
  has_text, IsDistinct, is_audience_of, build_delegated_authority_claims-audience,
}
use helpan_ai.Tests.Fixtures.{transfer}

abbrev refund : AuthorityScope
refund = record transfer { scope_id = "pay.refund" }

abbrev order : AuthorityScope
order = record transfer { scope_id = "lunchdrop.order" }

-- Two scopes of one platform rail, and one of a rail without an audience.
abbrev three_scopes : BuildClaimsInput
three_scopes = record {
  issuer = "https://api.identiti.co.ke";
  helpan_audience = "https://api.helpan.ai";
  account_uuid = "acc_1";
  agent_id = "agt_1";
  ttl_seconds = 600;
  scopes = transfer ∷ refund ∷ order ∷ [];
  scope_rails =
      ("lunchdrop.order", "lunchdrop")
      ∷ ("pay.refund", "kipkiren_pay")
      ∷ ("pay.transfer", "kipkiren_pay")
      ∷ [];
  step_up_jti = none;
}

aud_of_three :
    (build_delegated_authority_claims "01J" 1_000_000 three_scopes).claims.aud
    ≡ "https://api.helpan.ai" ∷ "https://api.pay.kipkiren.co.ke" ∷ []
unfolding build_delegated_authority_claims build_audience scope_audience add_to_set
aud_of_three = refl

build_delegated_authority_claims-audience_example :
    (has_text "https://api.pay.kipkiren.co.ke"
        (build_delegated_authority_claims "01J" 1_000_000 three_scopes).claims.aud
      ≡ (three_scopes.helpan_audience == "https://api.pay.kipkiren.co.ke"
          || any
              (is_audience_of three_scopes.scope_rails "https://api.pay.kipkiren.co.ke")
              three_scopes.scopes))
    × IsDistinct (build_delegated_authority_claims "01J" 1_000_000 three_scopes).claims.aud
build_delegated_authority_claims-audience_example =
    build_delegated_authority_claims-audience "01J" 1_000_000 three_scopes
      "https://api.pay.kipkiren.co.ke"
