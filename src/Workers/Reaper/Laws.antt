-- ===== src/Workers/Reaper/Laws.antt =====
-- What a tick of the reaper settles.
use helpan_ai.Prelude.{String, Option, some, List, any, ◌==◌, if◌then◌else◌}
use helpan_ai.World.{World}
use helpan_ai.Store.Rows.{ActionRow}
use helpan_ai.Actions.Repo.{failed_row, updated}
use helpan_ai.Workers.Reaper.{
  ReaperClocks, ReapStaleActionsOptions, reaper_error_code, reaped_detail,
}

module _ (w : World) (clocks : ReaperClocks) (options : ReapStaleActionsOptions) where
  abbrev pub reaped : ActionRow → ActionRow
  reaped row =
      failed_row w clocks.marked_at reaper_error_code (some (reaped_detail clocks options)) row

  -- What a read by an id sees after the rows of `ids` were reaped.
  abbrev pub reaped_read : List String → String → Option ActionRow → Option ActionRow
  reaped_read ids j found = if any (λ id. id == j) ids then updated reaped found else found
