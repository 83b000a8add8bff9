-- ===== src/Clients/StepUp.antt =====
-- src/lib/stepUpVerifier.ts.
use helpan_ai.Prelude.{String, Option, none, some}
use helpan_ai.Json.{Json, str, Fields, get_field}
use helpan_ai.Authorities.Conditions.{StepUpVerifyResult, step_up_ok, step_up_failed}

abbrev pub step_up_audience : String
step_up_audience = "helpan_authority_issuance"

abbrev claimed : Option Json → Option Json → StepUpVerifyResult
claimed (some (str jti)) (some (str sub)) = step_up_ok jti sub
claimed _ _ = step_up_failed

-- What `jwtVerify` returned; `none` where it threw. The failures differ in their messages only.
abbrev payload_result : Option Fields → StepUpVerifyResult
payload_result none = step_up_failed
payload_result (some payload) = claimed (get_field "jti" payload) (get_field "sub" payload)

-- `jwt_verify` is jose's, for the resolver of keys and RS256, at a token, an issuer and an
-- audience.
unfoldable pub verify_step_up :
    (String → String → String → Option Fields) → String → String → StepUpVerifyResult
verify_step_up jwt_verify issuer token = payload_result (jwt_verify token issuer step_up_audience)
