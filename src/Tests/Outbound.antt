-- ===== src/Tests/Outbound.antt =====
-- The production dispatchers at concrete inputs.
use helpan_ai.Prelude.{String, some, none, ◌≡◌, refl}
use helpan_ai.Json.{get_field, obj, str, nat, field, end}
use helpan_ai.Actions.Types.{DispatchInput, completed, failed}
use helpan_ai.Clients.Http.{HttpDeps, RailRequest, RailAnswer, answered}
use helpan_ai.Clients.Registry.{OutboundRailConfig, OutboundDispatch, production_dispatch}
use helpan_ai.Clients.Completed.{IsAccepted, production_dispatch-completed}
use helpan_ai.Tests.Fixtures.{plain_world}
use helpan_ai.Json.Stringify.{decimal}

abbrev accepted : RailRequest → RailAnswer
accepted request =
    answered 201 (some (obj (field "data" (obj (field "receipt" (str "r_1") end)) end)))

abbrev refused : RailRequest → RailAnswer
refused request =
    answered 422 (some (obj (field "error" (obj (field "code" (str "LOW_FUNDS") end)) end)))

abbrev broken : RailRequest → RailAnswer
broken request = answered 503 none

abbrev pub with_fetch : (RailRequest → RailAnswer) → HttpDeps
with_fetch fetch = record {
  encode_uri_component = λ s. s;
  resolve = λ path base. some (record { href = path; path_and_query = path });
  canonical_string = λ c. c.body_sha256_hex;
  sign_request = λ text secret. secret;
  fetch = fetch;
}

abbrev unset : OutboundRailConfig
unset = record {
  base_url = "";
  dispatch_path = "";
  app_id = "helpan_ai";
  hmac_secret = "";
  timestamp_header = "X-Timestamp";
}

abbrev rails : OutboundDispatch
rails = record {
  kipkiren_pay = record unset {
    base_url = "https://pay";
    dispatch_path = "/v1/{operation}/run";
    hmac_secret = "key";
  };
  todoku = unset;
  identiti = unset;
  klokd = unset;
}

abbrev call : String → DispatchInput
call rail = record {
  target_rail = rail;
  target_operation = "transfer";
  payload = obj (field "amount" (nat 300) end);
  delegated_authority_jwt = "jwt";
  business_op_id = "bop_1";
  traceparent = "00-1";
  idempotency_key = "idem_1";
  account_uuid = "acc_1";
}

accepted_result :
    production_dispatch plain_world (with_fetch accepted) 900 12 rails (call "kipkiren_pay")
    ≡ completed (obj (field "receipt" (str "r_1") end)) 12
unfolding production_dispatch get_field
accepted_result = refl

production_dispatch-completed_example :
    IsAccepted accepted (call "kipkiren_pay") (obj (field "receipt" (str "r_1") end))
production_dispatch-completed_example =
    production_dispatch-completed plain_world (with_fetch accepted) 900 12 (call "kipkiren_pay")
      (obj (field "receipt" (str "r_1") end)) 12 rails accepted_result

refused_result :
    production_dispatch plain_world (with_fetch refused) 900 12 rails (call "kipkiren_pay")
    ≡ failed "LOW_FUNDS" none 12
unfolding production_dispatch get_field
refused_result = refl

broken_result :
    production_dispatch plain_world (with_fetch broken) 900 12 rails (call "kipkiren_pay")
    ≡ failed "TARGET_RAIL_HTTP_503" none 12
unfolding production_dispatch get_field decimal
broken_result = refl
