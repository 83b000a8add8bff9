-- ===== src/Tests/Signatures.antt =====
-- The client that asks Identiti for signatures, at concrete answers.
use helpan_ai.Prelude.{true, some, none, [], ◌∷◌, ◌≡◌, refl}
use helpan_ai.Json.{get_field, Json, null, bool, obj, str, field, end}
use helpan_ai.Authorities.Claims.{DelegatedAuthorityClaims}
use helpan_ai.Authorities.Issue.{signed}
use helpan_ai.Clients.Http.{answered}
use helpan_ai.Clients.Signer.{
  HttpIdentitiSignerConfig, threw, read_answer, http_sign, as_declared, bad_response,
}
use helpan_ai.Tests.Fixtures.{plain_world}
use helpan_ai.Tests.Outbound.{with_fetch}

abbrev claims : DelegatedAuthorityClaims
claims = record {
  iss = "iss";
  aud = "a" ∷ [];
  sub = "acc_1";
  iat = 5;
  exp = 65;
  jti = "daa_1";
  token_class = "delegated_authority";
  actor_agent_id = "agt_1";
  initiated_by = "agent";
  scopes = [];
  step_up_jti = none;
  revocation_endpoint = "https://helpan/daa_1";
}

abbrev identiti : HttpIdentitiSignerConfig
identiti = record {
  sign_url = record { href = "https://identiti/sign"; path_and_query = "/sign" };
  hmac_secret = "key";
  app_id = "helpan_ai";
  timestamp_header = "X-Timestamp";
}

abbrev envelope : Json
envelope = obj (field "ok" (bool true) (field "data" (obj (field "token" (str "jwt") end)) end))

signed_token :
    as_declared (
      http_sign plain_world
        (with_fetch (λ request. answered 200 (some envelope)))
        identiti
        900
        "key_1"
        claims)
    ≡ some (signed "jwt")
unfolding as_declared http_sign get_field
signed_token = refl

-- The envelope of a success under a status of failure.
odd_status : read_answer (answered 500 (some envelope)) ≡ bad_response
unfolding read_answer get_field
odd_status = refl

not_json : read_answer (answered 503 none) ≡ bad_response
unfolding read_answer
not_json = refl

-- JSON that is no envelope: `parsed.error` is undefined and its `code` is read.
no_envelope :
    read_answer (answered 502 (some (obj (field "message" (str "bad gateway") end)))) ≡ threw
unfolding read_answer get_field
no_envelope = refl

null_body : read_answer (answered 502 (some null)) ≡ threw
unfolding read_answer
null_body = refl
