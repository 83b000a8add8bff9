-- ===== src/Briefings/Service.antt =====
-- src/modules/briefings/service.ts.
use Prim.Native.String.{◌++◌ as concat}
use helpan_ai.Prelude.{
  ℕ, ◌+◌, ◌/◌, String, Bool, true, not, ◌&&◌, Option, none, some, List, map, is_some, if◌then◌else◌,
}
use helpan_ai.Json.{null, bool, str, obj, Fields, end, field, with_text}
use helpan_ai.Time.{to_iso_string}
use helpan_ai.World.{World}
use helpan_ai.Store.{Db}
use helpan_ai.Store.Briefings.{BriefingRow, BriefingType, BriefingStatus, briefing_is_revoked}
use helpan_ai.Store.Tx.{Result, ok, err, coded, Tx, ◌>>=◌, ◌>>◌, pure, gets}
use helpan_ai.Audit.{append_audit_entry}
use helpan_ai.Audit.Hash.{AuditEntry, blank_entry}
use helpan_ai.Paging.{Cursor}
use helpan_ai.Briefings.Repo.{
  InsertBriefingInput, insert_briefing, get_briefing_by_id, UpdateBriefing, update_briefing,
  soft_revoke_briefing, list_briefings_page,
}

pub record BriefingDto : Type 0 where
  pub id : String
  pub account_uuid : String
  pub app_id : String
  pub agent_id : Option String
  pub briefing_type : BriefingType
  pub status : BriefingStatus
  pub intent : Fields
  pub expires_at : Option String
  pub created_at : String
  pub updated_at : String

abbrev iso_or_none : Option ℕ → Option String
iso_or_none none = none
iso_or_none (some ms) = some (to_iso_string ms)

unfoldable pub to_briefing_dto : BriefingRow → BriefingDto
to_briefing_dto row = record {
  id = row.id;
  account_uuid = row.account_uuid;
  app_id = row.app_id;
  agent_id = row.agent_id;
  briefing_type = row.briefing_type;
  status = row.status;
  intent = row.intent;
  expires_at = iso_or_none row.expires_at;
  created_at = to_iso_string (row.created_at / 1000);
  updated_at = to_iso_string (row.updated_at / 1000);
}

pub record AuditContext : Type 0 where
  pub account_uuid : String
  pub app_id : String
  pub request_id : String
  pub traceparent : Option String

pub record CreateBriefingArgs : Type 0 where
  pub account_uuid : String
  pub app_id : String
  pub briefing_type : BriefingType
  pub intent : Fields
  pub agent_id : Option String
  pub expires_at : Option ℕ
  pub app_correlation_id : Option String

abbrev pub type_text : BriefingType → String
type_text BriefingType.alert = "alert"
type_text BriefingType.standing_basket = "standing_basket"
type_text BriefingType.scheduled_action = "scheduled_action"
type_text BriefingType.threshold_watch = "threshold_watch"

abbrev pub status_text : BriefingStatus → String
status_text BriefingStatus.active = "active"
status_text BriefingStatus.paused = "paused"
status_text BriefingStatus.expired = "expired"
status_text BriefingStatus.revoked = "revoked"

-- The entry that each of the three writes appends, with its action and detail.
unfoldable pub briefing_entry : AuditContext → String → String → Fields → AuditEntry
briefing_entry audit action id detail = record blank_entry {
  actor_type = "user";
  actor_id = audit.account_uuid;
  account_uuid = some audit.account_uuid;
  action = action;
  resource_type = some "briefing";
  resource_id = some id;
  app_id = some audit.app_id;
  request_id = audit.request_id;
  traceparent = audit.traceparent;
  outcome = "success";
  initiated_by = some "human";
  detail = some (obj detail);
}

abbrev create_detail : CreateBriefingArgs → Fields
create_detail args = field "briefing_type" (str (type_text args.briefing_type)) (
    field "app_id" (str args.app_id) (
      with_text "agent_id" args.agent_id
        (with_text "expires_at" (iso_or_none args.expires_at) end)))

abbrev new_briefing : String → CreateBriefingArgs → InsertBriefingInput
new_briefing id args = record {
  id = id;
  account_uuid = args.account_uuid;
  app_id = args.app_id;
  agent_id = args.agent_id;
  briefing_type = args.briefing_type;
  intent = args.intent;
  expires_at = args.expires_at;
  app_correlation_id = args.app_correlation_id;
}

mint : World → Tx Db String
mint w db = ok (w.ulid db.minted, record db { minted = db.minted + 1 })

-- `tx_us` is the NOW() of the transaction in microseconds.
unfoldable pub create_briefing : World → AuditContext → CreateBriefingArgs → ℕ → Tx Db BriefingDto
unfolding mint briefing_entry to_briefing_dto
create_briefing w audit args tx_us = do
  ulid ← mint w
  row ← insert_briefing w tx_us (new_briefing (concat "brf_" ulid) args)
  append_audit_entry w (tx_us / 1000)
      (briefing_entry audit "briefing.create" (concat "brf_" ulid) (create_detail args))
  pure (to_briefing_dto row)

abbrev dto_of : Option BriefingRow → Option BriefingDto
dto_of none = none
dto_of (some row) = some (to_briefing_dto row)

unfoldable pub read_briefing : Db → String → String → Option BriefingDto
unfolding to_briefing_dto
read_briefing db account id = dto_of (get_briefing_by_id db.briefings id account)

pub record ListBriefingsArgs : Type 0 where
  pub account_uuid : String
  pub app_id : Option String
  pub status : Option BriefingStatus
  -- `some none` is a cursor that does not decode.
  pub cursor : Option (Option Cursor)
  pub limit : Option ℕ

abbrev decoded : Option (Option Cursor) → Result (Option Cursor)
decoded none = ok none
decoded (some none) = err (coded "REQ_INVALID" 400 (some "cursor"))
decoded (some (some c)) = ok (some c)

unfoldable pub list_briefings_for_customer :
    Db → ListBriefingsArgs → Result (List BriefingDto × Option Cursor)
unfolding to_briefing_dto
list_briefings_for_customer db args = elim (decoded args.cursor) [
  | err e ↦ err e
  | ok cursor ↦
      let page =
        list_briefings_page args.account_uuid args.app_id args.status cursor args.limit
          db.briefings in
      ok (map to_briefing_dto page.0, page.1)
]

abbrev is_noop : UpdateBriefing → Bool
is_noop patch =
    not (is_some patch.status) && (not (is_some patch.intent) && not (is_some patch.expires_at))

abbrev with_status : Option BriefingStatus → Fields → Fields
with_status none rest = rest
with_status (some status) rest = field "status" (str (status_text status)) rest

abbrev with_expiry : Option (Option ℕ) → Fields → Fields
with_expiry none rest = rest
with_expiry (some none) rest = field "expires_at" null rest
with_expiry (some (some ms)) rest = field "expires_at" (str (to_iso_string ms)) rest

abbrev patch_detail : UpdateBriefing → Fields
patch_detail patch = with_status patch.status (
    let rest = with_expiry patch.expires_at end in
    if is_some patch.intent then field "intent_changed" (bool true) rest else rest)

-- The entry and the answer, where a row was updated.
abbrev pub audited :
    World → ℕ → (BriefingRow → Tx Db (Unit {0})) → Option BriefingRow → Tx Db (Option BriefingDto)
audited w tx_now record_it none = pure none
audited w tx_now record_it (some row) = record_it row >> pure (some (to_briefing_dto row))

abbrev pub append : World → ℕ → AuditEntry → Tx Db (Unit {0})
append w tx_now entry = append_audit_entry w tx_now entry >> pure tt

unfoldable pub patch_briefing :
    World → AuditContext → String → UpdateBriefing → ℕ → ℕ → Tx Db (Option BriefingDto)
unfolding briefing_entry to_briefing_dto
patch_briefing w audit id patch now tx_now =
    if is_noop patch
    then gets (λ db. read_briefing db audit.account_uuid id)
    else update_briefing w now id audit.account_uuid patch
      >>= audited w tx_now
          (λ row. append w tx_now (briefing_entry audit "briefing.update" id (patch_detail patch)))

abbrev pub revoke_entry : AuditContext → String → BriefingRow → AuditEntry
revoke_entry audit id existing =
    briefing_entry audit "briefing.revoke" id
      (field "previous_status" (str (status_text existing.status)) end)

abbrev pub revoke_existing :
    World → AuditContext → String → ℕ → ℕ → Option BriefingRow → Tx Db (Option BriefingDto)
revoke_existing w audit id now tx_now none = pure none
revoke_existing w audit id now tx_now (some existing) =
    soft_revoke_briefing now id audit.account_uuid
    >>= audited w tx_now (λ row.
      if briefing_is_revoked existing.status
      then pure tt
      else append w tx_now (revoke_entry audit id existing))

unfoldable pub revoke_briefing : World → AuditContext → String → ℕ → ℕ → Tx Db (Option BriefingDto)
unfolding briefing_entry to_briefing_dto
revoke_briefing w audit id now tx_now =
    gets (λ db. get_briefing_by_id db.briefings id audit.account_uuid)
    >>= revoke_existing w audit id now tx_now
