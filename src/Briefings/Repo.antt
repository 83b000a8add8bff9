-- ===== src/Briefings/Repo.antt =====
-- src/modules/briefings/repo.ts: the `briefings` table.
use helpan_ai.Prelude.{
  ℕ, ◌*◌, String, Bool, true, false, ◌&&◌, Option, none, some, List, [], ◌∷◌, ◌++◌, ◌==◌, any, find,
  update_where, if◌then◌else◌, ◌or_else◌,
}
use helpan_ai.Json.{Json, obj, Fields, end}
use helpan_ai.World.{World}
use helpan_ai.Store.{Db}
use helpan_ai.Store.Briefings.{BriefingRow, BriefingType, BriefingStatus}
use helpan_ai.Store.Tx.{Tx, ok, err, internal}
use helpan_ai.Paging.{Cursor, list_page, text_is}

-- What a JSONB column returns for an object.
abbrev fields_of : Json → Fields
fields_of (obj fields) = fields
fields_of _ = end

abbrev pub jsonb_fields : World → Fields → Fields
jsonb_fields w fields = fields_of (w.jsonb (obj fields))

pub record InsertBriefingInput : Type 0 where
  pub id : String
  pub account_uuid : String
  pub app_id : String
  pub agent_id : Option String
  pub briefing_type : BriefingType
  pub intent : Fields
  pub expires_at : Option ℕ
  pub app_correlation_id : Option String

unfoldable pub briefing_row : World → ℕ → InsertBriefingInput → BriefingRow
briefing_row w tx_us input = record {
  id = input.id;
  account_uuid = input.account_uuid;
  app_id = input.app_id;
  agent_id = input.agent_id;
  briefing_type = input.briefing_type;
  status = BriefingStatus.active;
  intent = jsonb_fields w input.intent;
  expires_at = input.expires_at;
  app_correlation_id = input.app_correlation_id;
  created_at = tx_us;
  updated_at = tx_us;
  revoked_at = none;
}

abbrev pub has_briefing_id : String → BriefingRow → Bool
has_briefing_id id row = row.id == id

unfoldable pub insert_briefing : World → ℕ → InsertBriefingInput → Tx Db BriefingRow
insert_briefing w tx_us input db =
    if any (has_briefing_id input.id) db.briefings
    then err (internal "duplicate key: briefings_pkey")
    else ok (
      briefing_row w tx_us input,
      record db { briefings = db.briefings ++ briefing_row w tx_us input ∷ [] },
    )

abbrev pub is_own_briefing : String → String → BriefingRow → Bool
is_own_briefing id account row = row.id == id && row.account_uuid == account

unfoldable pub get_briefing_by_id : List BriefingRow → String → String → Option BriefingRow
get_briefing_by_id rows id account = find (is_own_briefing id account) rows

pub record UpdateBriefing : Type 0 where
  pub status : Option BriefingStatus
  pub intent : Option Fields
  -- `some none` sets the column to NULL.
  pub expires_at : Option (Option ℕ)

abbrev new_intent : World → Option Fields → Fields → Fields
new_intent w none old = old
new_intent w (some fields) old = jsonb_fields w fields

-- `updatedAt: new Date()`, in milliseconds.
unfoldable pub updated_briefing : World → ℕ → UpdateBriefing → BriefingRow → BriefingRow
updated_briefing w now patch row = record row {
  status = patch.status or_else row.status;
  intent = new_intent w patch.intent row.intent;
  expires_at = patch.expires_at or_else row.expires_at;
  updated_at = now * 1000;
}

unfoldable pub revoked_briefing : ℕ → BriefingRow → BriefingRow
revoked_briefing now row = record row {
  status = BriefingStatus.revoked;
  revoked_at = some now;
  updated_at = now * 1000;
}

abbrev pub returned :
    String → String → (BriefingRow → BriefingRow) → Option BriefingRow → Tx Db (Option BriefingRow)
returned id account f none db = ok (none, db)
returned id account f (some row) db = ok (
  some (f row),
  record db { briefings = update_where (is_own_briefing id account) f db.briefings },
)

-- UPDATE … WHERE id AND account_uuid RETURNING the row.
unfoldable pub update_own :
    String → String → (BriefingRow → BriefingRow) → Tx Db (Option BriefingRow)
update_own id account f db =
    returned id account f (find (is_own_briefing id account) db.briefings) db

unfoldable pub update_briefing :
    World → ℕ → String → String → UpdateBriefing → Tx Db (Option BriefingRow)
unfolding update_own updated_briefing
update_briefing w now id account patch = update_own id account (updated_briefing w now patch)

unfoldable pub soft_revoke_briefing : ℕ → String → String → Tx Db (Option BriefingRow)
unfolding update_own revoked_briefing
soft_revoke_briefing now id account = update_own id account (revoked_briefing now)

abbrev status_is : Option BriefingStatus → BriefingStatus → Bool
status_is none status = true
status_is (some BriefingStatus.active) BriefingStatus.active = true
status_is (some BriefingStatus.paused) BriefingStatus.paused = true
status_is (some BriefingStatus.expired) BriefingStatus.expired = true
status_is (some BriefingStatus.revoked) BriefingStatus.revoked = true
status_is _ _ = false

abbrev pub briefing_filter : String → Option String → Option BriefingStatus → BriefingRow → Bool
briefing_filter account app status row =
    row.account_uuid == account && (text_is app row.app_id && status_is status row.status)

-- `listBriefings` and the paging of its service.
unfoldable pub list_briefings_page :
    String
    → Option String
    → Option BriefingStatus
    → Option Cursor
    → Option ℕ
    → List BriefingRow
    → List BriefingRow × Option Cursor
list_briefings_page account app status cursor limit rows =
    list_page (λ (r : BriefingRow). r.created_at) (λ r. r.id) (briefing_filter account app status)
      cursor limit rows
