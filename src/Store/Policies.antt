-- ===== src/Store/Policies.antt =====
-- The rows of safety policies (src/db/schema/safetyPolicies.ts).
use helpan_ai.Prelude.{ℕ, String, Option, List}
use helpan_ai.Json.{Json}

pub data AudiencePosture : Type 0 where
  family_friendly general adult_confirmed : AudiencePosture

pub data LocationPrecisionFloor : Type 0 where
  merchant_level neighbourhood_level city_level no_floor : LocationPrecisionFloor

pub record SafetyPolicyRow : Type 0 where
  pub id : String
  pub app_id : String
  pub category_whitelist : List String
  pub category_blacklist : List String
  pub content_moderation_rules : Json
  pub audience_posture : AudiencePosture
  pub location_precision_floor : Option LocationPrecisionFloor
  pub created_at : ℕ
  pub updated_at : ℕ
