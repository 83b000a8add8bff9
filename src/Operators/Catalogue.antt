-- ===== src/Operators/Catalogue.antt =====
-- src/modules/oauthScopes/service.ts and repo.ts.
use Prim.Native.String.{compare}
use text.Mathlib.Text.{is_lt}
use helpan_ai.Prelude.{
  ℕ, String, Bool, true, false, ◌&&◌, ◌||◌, Option, some, List, [], ◌∷◌, ◌++◌, map, ◌==◌, any,
  is_some, select, ◌or_else◌, if◌then◌else◌,
}
use helpan_ai.Json.{str, bool, nat, end, field}
use helpan_ai.Time.{to_iso_string}
use helpan_ai.World.{World}
use helpan_ai.Store.{Db}
use helpan_ai.Store.Rows.{OauthScopeRow}
use helpan_ai.Store.Tx.{ok, err, coded, internal, Tx, ◌>>◌, pure}
use helpan_ai.Audit.{append_audit_entry}
use helpan_ai.Audit.Hash.{AuditEntry}
use helpan_ai.Scopes.{get_scope_by_id}
use helpan_ai.Paging.{text_is}
use helpan_ai.Operators.Audited.{OperatorAuditContext, operator_entry}

pub record OauthScopeDto : Type 0 where
  pub id : String
  pub name : String
  pub description : String
  pub rail : String
  pub category : String
  pub default_grantable : Bool
  pub elevation_friction : String
  pub per_scope_amount_ceiling_minor : Option ℕ
  pub per_scope_period_ceiling_minor : Option ℕ
  pub per_scope_max_ttl_seconds : ℕ
  pub status : String
  pub created_at : String
  pub updated_at : String

unfoldable pub to_scope_dto : OauthScopeRow → OauthScopeDto
to_scope_dto row = record {
  id = row.id;
  name = row.name;
  description = row.description;
  rail = row.rail;
  category = row.category;
  default_grantable = row.default_grantable;
  elevation_friction = row.elevation_friction;
  per_scope_amount_ceiling_minor = row.per_scope_amount_ceiling_minor;
  per_scope_period_ceiling_minor = row.per_scope_period_ceiling_minor;
  per_scope_max_ttl_seconds = row.per_scope_max_ttl_seconds;
  status = row.status;
  created_at = to_iso_string row.created_at;
  updated_at = to_iso_string row.updated_at;
}

-- ORDER BY rail ASC, id ASC.
abbrev pub comes_first : OauthScopeRow → OauthScopeRow → Bool
comes_first x y = is_lt (compare x.rail y.rail) || (x.rail == y.rail && is_lt (compare x.id y.id))

unfoldable pub insert_by_rail : OauthScopeRow → List OauthScopeRow → List OauthScopeRow
insert_by_rail row [] = row ∷ []
insert_by_rail row (x ∷ xs) = elim (comes_first x row) [
  | true ↦ x ∷ insert_by_rail row xs
  | false ↦ row ∷ x ∷ xs
]

unfoldable pub by_rail : List OauthScopeRow → List OauthScopeRow
unfolding insert_by_rail
by_rail [] = []
by_rail (x ∷ xs) = insert_by_rail x (by_rail xs)

unfoldable pub list_scopes : Option String → List OauthScopeRow → List OauthScopeRow
unfolding by_rail
list_scopes rail rows = by_rail (select (λ row. text_is rail row.rail) rows)

unfoldable pub list_oauth_scopes : Db → Option String → List OauthScopeDto
unfolding list_scopes to_scope_dto
list_oauth_scopes db rail = map to_scope_dto (list_scopes rail db.oauth_scopes)

-- A ceiling of `null` and one that is left out are stored alike.
pub record CreateScopeArgs : Type 0 where
  pub id : String
  pub name : String
  pub description : String
  pub rail : String
  pub category : String
  pub default_grantable : Bool
  pub elevation_friction : Option String
  pub per_scope_amount_ceiling_minor : Option ℕ
  pub per_scope_period_ceiling_minor : Option ℕ
  pub per_scope_max_ttl_seconds : Option ℕ

abbrev pub default_ttl_seconds : ℕ
default_ttl_seconds = 3600

abbrev pub default_elevation : String
default_elevation = "low"

unfoldable pub scope_row : ℕ → CreateScopeArgs → OauthScopeRow
scope_row tx_now args = record {
  id = args.id;
  name = args.name;
  description = args.description;
  rail = args.rail;
  category = args.category;
  default_grantable = args.default_grantable;
  elevation_friction = args.elevation_friction or_else default_elevation;
  per_scope_amount_ceiling_minor = args.per_scope_amount_ceiling_minor;
  per_scope_period_ceiling_minor = args.per_scope_period_ceiling_minor;
  per_scope_max_ttl_seconds = args.per_scope_max_ttl_seconds or_else default_ttl_seconds;
  status = "active";
  created_at = tx_now;
  updated_at = tx_now;
}

abbrev pub has_scope_id : String → OauthScopeRow → Bool
has_scope_id id row = row.id == id

unfoldable pub insert_scope : OauthScopeRow → Tx Db (Unit {0})
insert_scope new db =
    if any (has_scope_id new.id) db.oauth_scopes
    then err (internal "duplicate key: oauth_scopes_pkey")
    else ok (tt, record db { oauth_scopes = db.oauth_scopes ++ new ∷ [] })

unfoldable pub scope_entry : OperatorAuditContext → OauthScopeRow → AuditEntry
unfolding operator_entry
scope_entry audit row = operator_entry audit "oauth_scope.create" "oauth_scope" row.id (
    field "rail" (str row.rail) (
      field "category" (str row.category) (
        field "default_grantable" (bool row.default_grantable)
          (field "per_scope_max_ttl_seconds" (nat row.per_scope_max_ttl_seconds) end))))

unfoldable pub create_new_scope :
    World → OperatorAuditContext → ℕ → OauthScopeRow → Tx Db OauthScopeDto
unfolding insert_scope scope_entry to_scope_dto
create_new_scope w audit tx_now row = do
  insert_scope row
  append_audit_entry w tx_now (scope_entry audit row)
  pure (to_scope_dto row)

-- The lookup stands before the transaction: `between` is what others do from then on.
unfoldable pub create_oauth_scope :
    World → OperatorAuditContext → CreateScopeArgs → (Db → Db) → ℕ → Tx Db OauthScopeDto
unfolding create_new_scope scope_row
create_oauth_scope w audit args between tx_now db =
    if is_some (get_scope_by_id db.oauth_scopes args.id)
    then err (coded "OAUTH_SCOPE_EXISTS" 409 (some "id"))
    else create_new_scope w audit tx_now (scope_row tx_now args) (between db)
