-- ===== src/Actions/Listing.antt =====
-- `readAction` and `listActionsForQuery` of src/modules/actions/service.ts, and `listActions` of
-- its repo.ts.
use helpan_ai.Prelude.{ℕ, ◌+◌, ◌*◌, String, Bool, true, false, ◌&&◌, Option, none, some, List, map}
use helpan_ai.Store.{Db}
use helpan_ai.Store.Rows.{ActionRow, ActionStatus}
use helpan_ai.Paging.{Cursor, list_page, text_is}
use helpan_ai.Actions.Types.{ActionDto, to_action_dto}
use helpan_ai.Actions.Repo.{get_action_by_id}

abbrev dto_of : Option ActionRow → Option ActionDto
dto_of none = none
dto_of (some row) = some (to_action_dto row)

unfoldable pub read_action : Db → String → Option ActionDto
unfolding to_action_dto
read_action db id = dto_of (get_action_by_id db.actions id)

pub record ListActionsForQueryInput : Type 0 where
  pub status : Option ActionStatus
  pub agent_id : Option String
  pub target_rail : Option String
  pub account_uuid : Option String
  -- `some none` is a cursor that does not decode.
  pub cursor : Option (Option Cursor)
  pub limit : Option ℕ

abbrev status_is : Option ActionStatus → ActionStatus → Bool
status_is none status = true
status_is (some ActionStatus.pending) ActionStatus.pending = true
status_is (some ActionStatus.completed) ActionStatus.completed = true
status_is (some ActionStatus.failed) ActionStatus.failed = true
status_is _ _ = false

abbrev pub action_filter : ListActionsForQueryInput → ActionRow → Bool
action_filter input row =
    status_is input.status row.status
    && (text_is input.agent_id row.agent_id
        && (text_is input.target_rail row.target_rail
            && text_is input.account_uuid row.account_uuid))

-- A cursor that does not decode reads the first page.
abbrev parsed : Option (Option Cursor) → Option Cursor
parsed none = none
parsed (some cursor) = cursor

-- `micros` is what `created_at` has beyond its milliseconds, which the rows leave out.
unfoldable pub list_actions_for_query :
    (ActionRow → ℕ) → Db → ListActionsForQueryInput → List ActionDto × Option Cursor
unfolding to_action_dto
list_actions_for_query micros db input =
    let page =
      list_page (λ (r : ActionRow). r.created_at * 1000 + micros r) (λ r. r.id)
        (action_filter input) (parsed input.cursor) input.limit db.actions in
    (map to_action_dto page.0, page.1)
