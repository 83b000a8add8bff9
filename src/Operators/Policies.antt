-- ===== src/Operators/Policies.antt =====
-- src/modules/operatorSafetyPolicies/service.ts and repo.ts.
use Prim.Native.String.{◌++◌ as concat, compare}
use text.Mathlib.Text.{is_lt}
use helpan_ai.Prelude.{
  ℕ, ◌+◌, String, Bool, true, false, ◌||◌, Option, none, some, List, [], ◌∷◌, ◌++◌, map, ◌==◌, any,
  find, update_where, ◌or_else◌, if◌then◌else◌,
}
use helpan_ai.Json.{Json, arr, nil, str, end, field}
use helpan_ai.Time.{to_iso_string}
use helpan_ai.World.{World}
use helpan_ai.Store.{Db}
use helpan_ai.Store.Policies.{SafetyPolicyRow, AudiencePosture, LocationPrecisionFloor}
use helpan_ai.Store.Tx.{
  ok, err, coded, internal, Tx, ◌>>=◌, ◌>>◌, pure, gets, modify, require, throw,
}
use helpan_ai.Audit.{append_audit_entry}
use helpan_ai.Audit.Hash.{AuditEntry}
use helpan_ai.Operators.Audited.{OperatorAuditContext, operator_entry}

pub record SafetyPolicyDto : Type 0 where
  pub id : String
  pub app_id : String
  pub category_whitelist : List String
  pub category_blacklist : List String
  pub content_moderation_rules : Json
  pub audience_posture : AudiencePosture
  pub location_precision_floor : Option LocationPrecisionFloor
  pub created_at : String
  pub updated_at : String

unfoldable pub to_policy_dto : SafetyPolicyRow → SafetyPolicyDto
to_policy_dto row = record {
  id = row.id;
  app_id = row.app_id;
  category_whitelist = row.category_whitelist;
  category_blacklist = row.category_blacklist;
  content_moderation_rules = row.content_moderation_rules;
  audience_posture = row.audience_posture;
  location_precision_floor = row.location_precision_floor;
  created_at = to_iso_string row.created_at;
  updated_at = to_iso_string row.updated_at;
}

pub record PutSafetyPolicyArgs : Type 0 where
  pub id : String
  pub app_id : String
  pub category_whitelist : Option (List String)
  pub category_blacklist : Option (List String)
  pub content_moderation_rules : Option Json
  pub audience_posture : Option AudiencePosture
  -- `some none` sets the column to NULL.
  pub location_precision_floor : Option (Option LocationPrecisionFloor)

abbrev pub has_policy_id : String → SafetyPolicyRow → Bool
has_policy_id id row = row.id == id

abbrev pub has_policy_app : String → SafetyPolicyRow → Bool
has_policy_app app row = row.app_id == app

-- ORDER BY app_id ASC.
unfoldable pub insert_by_app : SafetyPolicyRow → List SafetyPolicyRow → List SafetyPolicyRow
insert_by_app row [] = row ∷ []
insert_by_app row (x ∷ xs) = elim (is_lt (compare x.app_id row.app_id)) [
  | true ↦ x ∷ insert_by_app row xs
  | false ↦ row ∷ x ∷ xs
]

unfoldable pub list_safety_policies : List SafetyPolicyRow → List SafetyPolicyRow
unfolding insert_by_app
list_safety_policies [] = []
list_safety_policies (x ∷ xs) = insert_by_app x (list_safety_policies xs)

unfoldable pub list_all_safety_policies : Db → List SafetyPolicyDto
unfolding list_safety_policies to_policy_dto
list_all_safety_policies db = map to_policy_dto (list_safety_policies db.safety_policies)

unfoldable pub get_safety_policy_by_id : List SafetyPolicyRow → String → Option SafetyPolicyRow
get_safety_policy_by_id rows id = find (has_policy_id id) rows

unfoldable pub get_safety_policy_by_app_id : List SafetyPolicyRow → String → Option SafetyPolicyRow
get_safety_policy_by_app_id rows app = find (has_policy_app app) rows

-- The row that the insert path writes, with the defaults of the service.
unfoldable pub policy_row : World → ℕ → PutSafetyPolicyArgs → SafetyPolicyRow
policy_row w tx_now args = record {
  id = args.id;
  app_id = args.app_id;
  category_whitelist = args.category_whitelist or_else [];
  category_blacklist = args.category_blacklist or_else [];
  content_moderation_rules = w.jsonb (args.content_moderation_rules or_else arr nil);
  audience_posture = args.audience_posture or_else AudiencePosture.general;
  location_precision_floor = args.location_precision_floor or_else none;
  created_at = tx_now;
  updated_at = tx_now;
}

-- The primary key, and the unique index on app_id.
abbrev pub policy_conflicts : SafetyPolicyRow → SafetyPolicyRow → Bool
policy_conflicts new row = has_policy_id new.id row || has_policy_app new.app_id row

unfoldable pub insert_safety_policy : SafetyPolicyRow → Tx Db (Unit {0})
insert_safety_policy new db =
    if any (policy_conflicts new) db.safety_policies
    then err (internal "duplicate key: safety_policies")
    else ok (tt, record db { safety_policies = db.safety_policies ++ new ∷ [] })

-- A member that is left out keeps what the existing row has.
unfoldable pub replaced_policy : World → ℕ → PutSafetyPolicyArgs → SafetyPolicyRow → SafetyPolicyRow
replaced_policy w now args row = record row {
  category_whitelist = args.category_whitelist or_else row.category_whitelist;
  category_blacklist = args.category_blacklist or_else row.category_blacklist;
  content_moderation_rules =
      w.jsonb (args.content_moderation_rules or_else row.content_moderation_rules);
  audience_posture = args.audience_posture or_else row.audience_posture;
  location_precision_floor = args.location_precision_floor or_else row.location_precision_floor;
  updated_at = now;
}

abbrev pub write_policy : (SafetyPolicyRow → SafetyPolicyRow) → String → Db → Db
write_policy f id db = record db {
  safety_policies = update_where (has_policy_id id) f db.safety_policies;
}

abbrev posture_text : AudiencePosture → String
posture_text AudiencePosture.family_friendly = "family_friendly"
posture_text AudiencePosture.general = "general"
posture_text AudiencePosture.adult_confirmed = "adult_confirmed"

unfoldable pub policy_entry : OperatorAuditContext → String → SafetyPolicyRow → AuditEntry
unfolding operator_entry
policy_entry audit action row = operator_entry audit action "safety_policy" row.id (
    field "target_app_id" (str row.app_id)
      (field "audience_posture" (str (posture_text row.audience_posture)) end))

-- The answer, and whether the policy is a new one.
abbrev pub PutResult : Type 0
PutResult = SafetyPolicyDto × Bool

abbrev pub create_policy :
    World
    → OperatorAuditContext
    → PutSafetyPolicyArgs
    → ℕ
    → Option SafetyPolicyRow
    → Tx Db PutResult
create_policy w audit args tx_now (some other) =
    throw (coded "SAFETY_POLICY_APP_HAS_POLICY" 409 (some "app_id"))
create_policy w audit args tx_now none = do
  insert_safety_policy (policy_row w tx_now args)
  append_audit_entry w tx_now (policy_entry audit "safety_policy.create" (policy_row w tx_now args))
  pure (to_policy_dto (policy_row w tx_now args), true)

abbrev pub replace_row :
    World → OperatorAuditContext → PutSafetyPolicyArgs → ℕ → ℕ → SafetyPolicyRow → Tx Db PutResult
replace_row w audit args now tx_now existing = do
  modify (write_policy (replaced_policy w now args) args.id)
  append_audit_entry w tx_now
      (policy_entry audit "safety_policy.update" (replaced_policy w now args existing))
  pure (to_policy_dto (replaced_policy w now args existing), false)

abbrev pub replace_policy :
    World → OperatorAuditContext → PutSafetyPolicyArgs → ℕ → ℕ → SafetyPolicyRow → Tx Db PutResult
replace_policy w audit args now tx_now existing =
    if existing.app_id == args.app_id
    then replace_row w audit args now tx_now existing
    else throw (coded "SAFETY_POLICY_APP_ID_FROZEN" 409 (some "app_id"))

abbrev pub put_existing :
    World
    → OperatorAuditContext
    → PutSafetyPolicyArgs
    → ℕ
    → ℕ
    → Option SafetyPolicyRow
    → Tx Db PutResult
put_existing w audit args now tx_now none =
    gets (λ db. get_safety_policy_by_app_id db.safety_policies args.app_id)
    >>= create_policy w audit args tx_now
put_existing w audit args now tx_now (some existing) =
    replace_policy w audit args now tx_now existing

unfoldable pub put_safety_policy :
    World → OperatorAuditContext → String → PutSafetyPolicyArgs → ℕ → ℕ → Tx Db PutResult
unfolding insert_safety_policy policy_row replaced_policy policy_entry to_policy_dto
put_safety_policy w audit path_id args now tx_now =
    require (args.id == path_id) (coded "REQ_INVALID" 400 (some "id"))
    >> (gets (λ db. get_safety_policy_by_id db.safety_policies path_id)
        >>= put_existing w audit args now tx_now)

mint : World → Tx Db String
mint w db = ok (w.ulid db.minted, record db { minted = db.minted + 1 })

-- The arguments' own id is not read.
unfoldable pub create_safety_policy :
    World → OperatorAuditContext → PutSafetyPolicyArgs → ℕ → ℕ → Tx Db SafetyPolicyDto
unfolding put_safety_policy mint
create_safety_policy w audit args now tx_now = do
  ulid ← mint w
  let id = concat "sfp_" ulid
  result ← put_safety_policy w audit id (record args { id = id }) now tx_now
  pure result.0
