-- ===== src/World.antt =====
-- What the service calls and does not implement: the `ulid` package, SHA-256 of node:crypto, and
-- the JSONB columns of PostgreSQL.
use helpan_ai.Prelude.{ℕ, String}
use helpan_ai.Json.{Json}

pub record World : Type 0 where
  -- The n-th ULID drawn.
  pub ulid : ℕ → String
  -- The hex digest of a text's UTF-8.
  pub sha256 : String → String
  -- What a JSONB column returns for a document stored in it.
  pub jsonb : Json → Json
