-- ===== src/Actions/Dispatch/Outcome.antt =====
-- What a dispatch that returns leaves behind.
use helpan_ai.Prelude.{false, some, ◌≡◌}
use helpan_ai.World.{World}
use helpan_ai.Store.{Db}
use helpan_ai.Store.Rows.{ActionRow, action_is_pending}
use helpan_ai.Actions.Types.{
  DispatchOutcome, DispatchAuditContext, DispatchActionArgs, Clocks, ActionDto, to_action_dto,
}
use helpan_ai.Actions.Repo.{get_action_by_id}
use helpan_ai.Actions.Dispatch.Phases.{Prepared}
use helpan_ai.Actions.Dispatch.PhaseC.{terminal_row}

module _ (w : World) (clocks : Clocks) (audit : DispatchAuditContext)
    (args : DispatchActionArgs) where
  -- The stored row is `row` with the outcome written over it, and is what is returned.
  abbrev pub IsTerminal : Prepared → DispatchOutcome → ActionDto → Db → Type 0
  IsTerminal p outcome dto db' =
      (row : ActionRow) × (get_action_by_id db'.actions p.action_id
        ≡ some (terminal_row w clocks audit args p outcome row))
      × (dto ≡ to_action_dto (terminal_row w clocks audit args p outcome row))
      × (action_is_pending dto.status ≡ false)
      × (dto.id ≡ p.action_id)
