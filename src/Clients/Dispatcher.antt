-- ===== src/Clients/Dispatcher.antt =====
-- src/lib/dispatchers/httpDispatcher.ts, and the unconfigured dispatcher of dispatcher.ts.
use Prim.Native.String.{◌++◌ as concat}
use Prim.Native.Char.{code}
use helpan_ai.Prelude.{
  ℕ, String, true, false, Option, none, some, nat_eq, ◌or_else◌, ◌==◌, if◌then◌else◌,
}
use helpan_ai.Json.{Json, str, arr, obj, Fields, end, field, get_field}
use helpan_ai.Json.Stringify.{stringify, decimal}
use helpan_ai.Time.{to_iso_string}
use helpan_ai.World.{World}
use helpan_ai.Actions.Types.{DispatchInput, DispatchOutcome, completed, failed, rejected}
use helpan_ai.Clients.Http.{
  ParsedUrl, RailRequest, RailAnswer, aborted, unreachable, answered, HttpDeps, is_ok_status,
}

pub record HttpDispatcherConfig : Type 0 where
  pub rail : String
  pub base_url : String
  pub dispatch_path : String
  pub app_id : String
  pub hmac_secret : String
  pub timestamp_header : String

-- `none` where the rail is none of the four.
unfoldable pub rail_prefix : String → Option String
rail_prefix rail =
    if rail == "kipkiren_pay"
    then some "KipkirenPay"
    else if rail == "todoku"
    then some "Todoku"
    else if rail == "identiti"
    then some "Identiti"
    else if rail == "klokd"
    then some "Helpan"
    else none

-- What follows a prefix.
unfoldable pub after_prefix : String → String → Option String
after_prefix String.[] s = some s
after_prefix (String.◌∷◌ c p) String.[] = none
after_prefix (String.◌∷◌ c p) (String.◌∷◌ d s) = elim (nat_eq (code c) (code d)) [
  | true ↦ after_prefix p s
  | false ↦ none
]

-- `replace` with a text: the first place only.
unfoldable pub replace_first : String → String → String → String
unfolding after_prefix
replace_first pattern by String.[] = String.[]
replace_first pattern by (String.◌∷◌ c s) = elim (after_prefix pattern (String.◌∷◌ c s)) [
  | some rest ↦ concat by rest
  | none ↦ String.◌∷◌ c (replace_first pattern by s)
]

abbrev pub operation_placeholder : String
operation_placeholder = "{operation}"

-- `data` of an envelope that is an object, or the whole object.
abbrev data_or : Fields → Option Json → Json
data_or fields (some (obj inner)) = obj inner
data_or fields (some (arr items)) = arr items
data_or fields _ = obj fields

unfoldable pub extract_data : Option Json → Json
extract_data (some (obj fields)) = data_or fields (get_field "data" fields)
extract_data (some (arr items)) = arr items
extract_data _ = obj end

-- The members of an envelope's `error` that is an object.
abbrev error_fields : Option Json → Fields
error_fields (some (obj fields)) = fields
error_fields _ = end

abbrev error_of : Option Json → Fields
error_of (some (obj fields)) = error_fields (get_field "error" fields)
error_of _ = end

abbrev text_of : Option Json → Option String
text_of (some (str s)) = some s
text_of _ = none

abbrev object_of : Option Json → Option Json
object_of (some (obj fields)) = some (obj fields)
object_of (some (arr items)) = some (arr items)
object_of _ = none

unfoldable pub extract_error_code : Option Json → Option String
extract_error_code parsed = text_of (get_field "code" (error_of parsed))

unfoldable pub extract_detail : Option Json → Option Json
extract_detail parsed = object_of (get_field "detail" (error_of parsed))

unfoldable pub dispatch_body : DispatchInput → String
dispatch_body input = stringify (
    obj (
      field "operation" (str input.target_operation) (
        field "account_uuid" (str input.account_uuid)
          (field "payload" input.payload (field "business_op_id" (str input.business_op_id) end)))))

unfoldable pub dispatch_request :
    World → HttpDeps → HttpDispatcherConfig → String → ℕ → ParsedUrl → DispatchInput → RailRequest
unfolding dispatch_body
dispatch_request w deps config prefix sent_at url input =
    let body = dispatch_body input in
    let canonical = deps.canonical_string (record {
      path_and_query = url.path_and_query;
      content_type = "application/json";
      timestamp = to_iso_string sent_at;
      body_sha256_hex = w.sha256 body;
    }) in
    record {
      url = url.href;
      authorization = concat prefix (
          concat "-HMAC-SHA256 app_id=" (
            concat config.app_id
              (concat ", signature=" (deps.sign_request canonical config.hmac_secret))));
      timestamp_header = config.timestamp_header;
      timestamp = to_iso_string sent_at;
      delegated_authority = some input.delegated_authority_jwt;
      traceparent = some input.traceparent;
      idempotency_key = input.idempotency_key;
      business_op_id = some input.business_op_id;
      body = body;
    }

abbrev pub thrown : String → String → String → ℕ → DispatchOutcome
thrown code rail message latency =
    failed code (some (obj (field "rail" (str rail) (field "message" (str message) end)))) latency

-- `latency` is what the clock says between the call and its answer.
unfoldable pub outcome_of : String → ℕ → RailAnswer → DispatchOutcome
unfolding extract_data extract_error_code extract_detail
outcome_of rail latency (aborted message) = thrown "TARGET_RAIL_TIMEOUT" rail message latency
outcome_of rail latency (unreachable message) =
    thrown "TARGET_RAIL_UNREACHABLE" rail message latency
outcome_of rail latency (answered status parsed) =
    if is_ok_status status
    then completed (extract_data parsed) latency
    else failed (extract_error_code parsed or_else concat "TARGET_RAIL_HTTP_" (decimal status))
        (extract_detail parsed) latency

unfoldable pub dispatch_url : HttpDeps → HttpDispatcherConfig → DispatchInput → Option ParsedUrl
unfolding replace_first
dispatch_url deps config input =
    deps.resolve
      (replace_first operation_placeholder (deps.encode_uri_component input.target_operation)
        config.dispatch_path)
      config.base_url

-- The request, or that `new URL` throws, with which the promise rejects. A prefix that is
-- undefined is written as such.
abbrev pub send :
    World
    → HttpDeps
    → HttpDispatcherConfig
    → ℕ
    → ℕ
    → DispatchInput
    → Option ParsedUrl
    → DispatchOutcome
send w deps config sent_at latency input none = rejected
send w deps config sent_at latency input (some url) = outcome_of config.rail latency (
    deps.fetch (
      dispatch_request w deps config (rail_prefix config.rail or_else "undefined") sent_at url
        input))

unfoldable pub http_dispatch :
    World → HttpDeps → HttpDispatcherConfig → ℕ → ℕ → DispatchInput → DispatchOutcome
unfolding dispatch_url dispatch_request outcome_of rail_prefix
http_dispatch w deps config sent_at latency input =
    send w deps config sent_at latency input (dispatch_url deps config input)

abbrev pub unconfigured_detail : String → Json
unconfigured_detail rail = obj (
    field "rail" (str rail) (
      field "reason"
        (str (
          concat "No dispatch URL configured for this target rail in the rail env (HELPAN_*_URL). "
            "Set the env var and redeploy to enable live dispatch."))
        end))

unfoldable pub unconfigured_dispatch : String → DispatchInput → DispatchOutcome
unconfigured_dispatch rail input =
    failed "TARGET_RAIL_UNCONFIGURED" (some (unconfigured_detail rail)) 0
