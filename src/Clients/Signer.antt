-- ===== src/Clients/Signer.antt =====
-- src/lib/identitiSigner.ts.
use Prim.Native.String.{◌++◌ as concat}
use helpan_ai.Prelude.{
  ℕ, String, Bool, true, false, Option, none, some, List, [], ◌∷◌, if◌then◌else◌,
}
use helpan_ai.Json.{
  Json, null, str, arr, obj, Items, nil, cons, Fields, end, field, get_field, string_list, nat,
  with_text,
}
use helpan_ai.Json.Stringify.{stringify}
use helpan_ai.Time.{Period, to_iso_string}
use helpan_ai.World.{World}
use helpan_ai.Store.Rows.{AuthorityScope}
use helpan_ai.Authorities.Claims.{DelegatedAuthorityClaims}
use helpan_ai.Authorities.Issue.{SignResult, signed, sign_failed}
use helpan_ai.Matching.Types.{truthy}
use helpan_ai.Clients.Http.{
  ParsedUrl, RailRequest, RailAnswer, aborted, unreachable, answered, HttpDeps, is_ok_status,
}

pub record HttpIdentitiSignerConfig : Type 0 where
  pub sign_url : ParsedUrl
  pub hmac_secret : String
  pub app_id : String
  pub timestamp_header : String

abbrev period_text : Period → String
period_text Period.daily = "daily"
period_text Period.weekly = "weekly"
period_text Period.monthly = "monthly"
period_text Period.single_use = "single_use"

abbrev with_nat : String → Option ℕ → Fields → Fields
with_nat key none rest = rest
with_nat key (some n) rest = field key (nat n) rest

abbrev with_list : String → Option (List String) → Fields → Fields
with_list key none rest = rest
with_list key (some texts) rest = field key (arr (string_list texts)) rest

abbrev with_period : Option Period → Fields → Fields
with_period none rest = rest
with_period (some p) rest = field "period" (str (period_text p)) rest

-- The members of a claim's scope, in the order in which `normaliseScope` sets them.
unfoldable pub claim_scope : AuthorityScope → Json
claim_scope s = obj (
    field "scope_id" (str s.scope_id) (
      with_nat "amount_limit_minor" s.amount_limit_minor (
        with_nat "per_period_limit_minor" s.per_period_limit_minor (
          with_period s.period (
            with_list "category_whitelist" s.category_whitelist
              (with_list "recipient_whitelist" s.recipient_whitelist end))))))

unfoldable pub claim_scopes : List AuthorityScope → Items
unfolding claim_scope
claim_scopes [] = nil
claim_scopes (s ∷ scopes) = cons (claim_scope s) (claim_scopes scopes)

unfoldable pub claims_object : DelegatedAuthorityClaims → Json
unfolding claim_scopes
claims_object c = obj (
    field "iss" (str c.iss) (
      field "aud" (arr (string_list c.aud)) (
        field "sub" (str c.sub) (
          field "iat" (nat c.iat) (
            field "exp" (nat c.exp) (
              field "jti" (str c.jti) (
                field "token_class" (str c.token_class) (
                  field "actor"
                    (obj (field "type" (str "agent") (field "agent_id" (str c.actor_agent_id) end)))
                    (field "initiated_by" (str c.initiated_by) (
                      field "scopes" (arr (claim_scopes c.scopes)) (
                        field "revocation_endpoint" (str c.revocation_endpoint)
                          (with_text "step_up_jti" c.step_up_jti end))))))))))))

unfoldable pub sign_request :
    World
    → HttpDeps
    → HttpIdentitiSignerConfig
    → ℕ
    → String
    → DelegatedAuthorityClaims
    → RailRequest
unfolding claims_object
sign_request w deps config sent_at kid claims =
    let body =
      stringify (obj (field "kid" (str kid) (field "claims" (claims_object claims) end))) in
    let canonical = deps.canonical_string (record {
      path_and_query = config.sign_url.path_and_query;
      content_type = "application/json";
      timestamp = to_iso_string sent_at;
      body_sha256_hex = w.sha256 body;
    }) in
    record {
      url = config.sign_url.href;
      authorization = concat "Identiti-HMAC-SHA256 app_id=" (
          concat config.app_id
            (concat ", signature=" (deps.sign_request canonical config.hmac_secret)));
      timestamp_header = config.timestamp_header;
      timestamp = to_iso_string sent_at;
      delegated_authority = none;
      traceparent = none;
      idempotency_key = claims.jti;
      business_op_id = none;
      body = body;
    }

-- What `sign` comes to: a token or a code as the answer has it, `undefined` included, or a
-- TypeError.
pub data SignAnswer : Type 0 where
  token : Option Json → SignAnswer
  refusal : Option Json → ℕ → SignAnswer
  threw : SignAnswer

-- `value[key]`: a TypeError, `none`, on `undefined` and `null`.
abbrev member : String → Option Json → Option (Option Json)
member key none = none
member key (some null) = none
member key (some (obj fields)) = some (get_field key fields)
member key (some _) = some none

abbrev token_answer : Option (Option Json) → SignAnswer
token_answer none = threw
token_answer (some value) = token value

abbrev refusal_answer : ℕ → Option (Option Json) → SignAnswer
refusal_answer status none = threw
refusal_answer status (some value) = refusal value status

abbrev pub bad_response : SignAnswer
bad_response = refusal (some (str "IDENTITI_SIGN_BAD_RESPONSE")) 502

-- An answer by its members `ok`, `data` and `error`, of which only `ok` is read from `null`.
abbrev by_members : ℕ → Bool → Option Json → Option Json → SignAnswer
by_members status true inner error =
    if is_ok_status status then token_answer (member "token" inner) else bad_response
by_members status false inner error = refusal_answer status (member "code" error)

unfoldable pub read_answer : RailAnswer → SignAnswer
read_answer (aborted message) = refusal (some (str "IDENTITI_SIGN_UNREACHABLE")) 502
read_answer (unreachable message) = refusal (some (str "IDENTITI_SIGN_UNREACHABLE")) 502
read_answer (answered status none) = bad_response
read_answer (answered status (some null)) = threw
read_answer (answered status (some (obj fields))) =
    by_members status (truthy (get_field "ok" fields)) (get_field "data" fields)
      (get_field "error" fields)
read_answer (answered status (some _)) = by_members status false none none

unfoldable pub http_sign :
    World → HttpDeps → HttpIdentitiSignerConfig → ℕ → String → DelegatedAuthorityClaims → SignAnswer
unfolding sign_request read_answer
http_sign w deps config sent_at kid claims =
    read_answer (deps.fetch (sign_request w deps config sent_at kid claims))

-- The signer that `issueAuthority` is given, where the answer has the type that it declares.
unfoldable pub as_declared : SignAnswer → Option SignResult
as_declared (token (some (str text))) = some (signed text)
as_declared (refusal (some (str code)) status) = some (sign_failed code status)
as_declared _ = none
