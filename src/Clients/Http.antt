-- ===== src/Clients/Http.antt =====
-- What the clients call and do not implement: `fetch` with the body's JSON, `URL`,
-- `encodeURIComponent`, and the canonical string and signature of the platform library.
use helpan_ai.Prelude.{ℕ, String, Bool, ◌&&◌, Option, leb}
use helpan_ai.Json.{Json}

pub record ParsedUrl : Type 0 where
  pub href : String
  pub path_and_query : String

pub record CanonicalInput : Type 0 where
  pub path_and_query : String
  pub content_type : String
  pub timestamp : String
  pub body_sha256_hex : String

-- The headers that differ; a POST with a JSON body.
pub record RailRequest : Type 0 where
  pub url : String
  pub authorization : String
  pub timestamp_header : String
  pub timestamp : String
  pub delegated_authority : Option String
  pub traceparent : Option String
  pub idempotency_key : String
  pub business_op_id : Option String
  pub body : String

-- `fetch` throws, by an abort or otherwise, with a message; or it answers with a status, and
-- the body's JSON where it is JSON.
pub data RailAnswer : Type 0 where
  aborted : String → RailAnswer
  unreachable : String → RailAnswer
  answered : ℕ → Option Json → RailAnswer

pub record HttpDeps : Type 0 where
  pub encode_uri_component : String → String
  -- `new URL(path, base)`; `none` where it throws.
  pub resolve : String → String → Option ParsedUrl
  pub canonical_string : CanonicalInput → String
  pub sign_request : String → String → String
  pub fetch : RailRequest → RailAnswer

-- `res.ok`.
abbrev pub is_ok_status : ℕ → Bool
is_ok_status status = leb 200 status && leb status 299
