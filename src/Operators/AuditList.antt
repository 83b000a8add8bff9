-- ===== src/Operators/AuditList.antt =====
-- src/modules/operatorAudit/service.ts and repo.ts.
use helpan_ai.Prelude.{
  ℕ, suc, ◌+◌, ◌*◌, String, Bool, true, ◌&&◌, ◌||◌, Option, none, some, List, map, ◌==◌, leb,
  ◌or_else◌, if◌then◌else◌,
}
use helpan_ai.Json.{Json}
use helpan_ai.Time.{to_iso_string}
use helpan_ai.Store.{Db}
use helpan_ai.Store.Rows.{AuditLogRow}
use helpan_ai.Store.Tx.{Result, ok, err, coded}
use helpan_ai.Paging.{Cursor, list_rows, page_of, text_is}

pub record AuditEntryDto : Type 0 where
  pub id : String
  pub app_id : Option String
  pub actor_type : String
  pub actor_id : String
  pub agent_id : Option String
  pub delegated_authority_jti : Option String
  pub initiated_by : Option String
  pub account_uuid : Option String
  pub action : String
  pub resource_type : Option String
  pub resource_id : Option String
  pub target_rail : Option String
  pub target_operation : Option String
  pub request_id : String
  pub traceparent : Option String
  pub outcome : String
  pub detail : Option Json
  pub previous_hash : Option String
  pub entry_hash : String
  pub created_at : String

unfoldable pub to_entry_dto : AuditLogRow → AuditEntryDto
to_entry_dto row = record {
  id = row.id;
  app_id = row.app_id;
  actor_type = row.actor_type;
  actor_id = row.actor_id;
  agent_id = row.agent_id;
  delegated_authority_jti = row.delegated_authority_jti;
  initiated_by = row.initiated_by;
  account_uuid = row.account_uuid;
  action = row.action;
  resource_type = row.resource_type;
  resource_id = row.resource_id;
  target_rail = row.target_rail;
  target_operation = row.target_operation;
  request_id = row.request_id;
  traceparent = row.traceparent;
  outcome = row.outcome;
  detail = row.detail;
  previous_hash = row.previous_hash;
  entry_hash = row.entry_hash;
  created_at = to_iso_string row.created_at;
}

pub record ListAuditArgs : Type 0 where
  pub account_uuid : Option String
  pub agent_id : Option String
  pub action : Option String
  pub from : Option ℕ
  pub to : Option ℕ
  -- `some none` is a cursor that does not decode.
  pub cursor : Option (Option Cursor)
  pub limit : Option ℕ

abbrev pub default_limit : ℕ
default_limit = 100

abbrev pub max_limit : ℕ
max_limit = 500

-- `Math.min(Math.max(limit ?? DEFAULT_LIMIT, 1), MAX_LIMIT)`.
abbrev at_least_one : ℕ → ℕ
at_least_one n = if leb n 1 then 1 else n

abbrev pub clamp : Option ℕ → ℕ
clamp limit =
    let wanted = at_least_one (limit or_else default_limit) in
    if leb wanted max_limit then wanted else max_limit

-- A filter on a column that may be NULL: NULL equals no text.
abbrev pub column_is : Option String → Option String → Bool
column_is none column = true
column_is (some t) none = t == ""
column_is (some t) (some c) = t == "" || c == t

abbrev pub since : Option ℕ → ℕ → Bool
since none us = true
since (some ms) us = leb (ms * 1000) us

abbrev pub until : Option ℕ → ℕ → Bool
until none us = true
until (some ms) us = leb us (ms * 1000)

module _ (micros : AuditLogRow → ℕ) where
  -- `created_at` in microseconds; `micros` is what it has beyond its milliseconds.
  abbrev pub created_us : AuditLogRow → ℕ
  created_us row = row.created_at * 1000 + micros row

  abbrev pub audit_filter : ListAuditArgs → AuditLogRow → Bool
  audit_filter args row =
      column_is args.account_uuid row.account_uuid
      && (column_is args.agent_id row.agent_id
          && (text_is args.action row.action
              && (since args.from (created_us row) && until args.to (created_us row))))

  unfoldable pub list_audit_entries :
      ListAuditArgs → Option Cursor → ℕ → List AuditLogRow → List AuditLogRow
  list_audit_entries args cursor limit rows =
      list_rows created_us (λ r. r.id) (audit_filter args) cursor limit rows

  abbrev decoded : Option (Option Cursor) → Result (Option Cursor)
  decoded none = ok none
  decoded (some none) = err (coded "REQ_INVALID" 400 (some "cursor"))
  decoded (some (some c)) = ok (some c)

  unfoldable pub list_audit : Db → ListAuditArgs → Result (List AuditEntryDto × Option Cursor)
  unfolding list_audit_entries to_entry_dto
  list_audit db args = elim (decoded args.cursor) [
    | err e ↦ err e
    | ok cursor ↦
        let page =
          page_of created_us (λ r. r.id) (clamp args.limit)
            (list_audit_entries args cursor (suc (clamp args.limit)) db.audit_log) in
        ok (map to_entry_dto page.0, page.1)
  ]
