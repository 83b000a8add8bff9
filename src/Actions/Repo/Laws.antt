-- ===== src/Actions/Repo/Laws.antt =====
-- Reads of an action after an update by its id.
use helpan_ai.Prelude.{
  Bool, true, false, List, [], ◌∷◌, ◌≡◌, refl, arith, find, update_where, Bool-cases, inl, inr,
}
use helpan_ai.Store.Rows.{ActionRow}
use helpan_ai.Actions.Repo.{updated}

pub find-update_where :
    (p : ActionRow → Bool) (f : ActionRow → ActionRow)
    → ((row : ActionRow) → p (f row) ≡ p row)
    → (rows : List ActionRow) → find p (update_where p f rows) ≡ updated f (find p rows)
find-update_where p f keeps [] = refl
find-update_where p f keeps (row ∷ rows) =
    ground (arith, keeps row, find-update_where p f keeps rows)

-- An update that keeps ids leaves the rows of other ids as they were.
pub find-update_where_other :
    (p q : ActionRow → Bool) (f : ActionRow → ActionRow)
    → ((row : ActionRow) → q (f row) ≡ q row)
    → ((row : ActionRow) → p row ≡ true → q row ≡ false)
    → (rows : List ActionRow) → find q (update_where p f rows) ≡ find q rows
find-update_where_other p q f keeps apart [] = refl
find-update_where_other p q f keeps apart (row ∷ rows) = elim (Bool-cases (p row)) [
  | inl hit ↦
      ground (arith, keeps row, apart row hit, find-update_where_other p q f keeps apart rows)
  | inr miss ↦ ground (arith, find-update_where_other p q f keeps apart rows)
]
