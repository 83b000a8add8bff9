-- ===== src/Workers/Reaper/Batch.antt =====
-- The batch that a tick of the reaper reads: `listStalePendingActions` against an independent
-- description.
use mathlib.Core.List.{Perm}
use mathlib.Core.List.Perm
use mathlib.Core.Path.{subst}
use helpan_ai.Prelude.{
  ℕ, ◌≤◌, String, Bool, false, not, ◌&&◌, List, [], ◌∷◌, ◌≡◌, refl, arith, ltb, select, take, All,
  All-map, Bool-cases, inl, inr, if◌then◌else◌,
}
use helpan_ai.Store.Rows.{ActionRow, action_is_pending}
use helpan_ai.Actions.Repo.{
  is_stale, action_before, insert_by_age, sort_by_age, list_stale_pending_actions,
}

-- Pending, created before `t`, and in no other transaction's hands.
abbrev pub is_reapable : (String → Bool) → ℕ → ActionRow → Bool
is_reapable locked t row =
    (action_is_pending row.status && ltb row.created_at t) && not (locked row.id)

abbrev pub IsOldestFirst : List ActionRow → Type 0
IsOldestFirst [] = Unit
IsOldestFirst (x ∷ rows) =
    All (λ (y : ActionRow). x.created_at ≤ y.created_at) rows × IsOldestFirst rows

-- The oldest of the reapable actions, `limit` of them at most.
abbrev pub IsBatchOf : (String → Bool) → ℕ → ℕ → List ActionRow → List ActionRow → Type 0
IsBatchOf locked t limit actions batch =
    (due : List ActionRow) × Perm due (select (is_reapable locked t) actions)
    × IsOldestFirst due
    × (batch ≡ take limit due)

insert_by_age-All {κ} :
    (P : ActionRow → Type κ) (row : ActionRow) (rows : List ActionRow)
    → P row
    → All P rows
    → All P (insert_by_age row rows)
unfolding insert_by_age
insert_by_age-All P row [] p h = (p, tt)
insert_by_age-All P row (x ∷ rows) p (q, h) = elim (Bool-cases (action_before row x)) [
  | inl first ↦ rw (first, insert_by_age) (p, (q, h))
  | inr later ↦ rw (later, insert_by_age) (q, insert_by_age-All P row rows p h)
]

insert_by_age-perm :
    (row : ActionRow) (rows : List ActionRow) → Perm (insert_by_age row rows) (row ∷ rows)
unfolding insert_by_age
insert_by_age-perm row [] = Perm.rfl
insert_by_age-perm row (x ∷ rows) = elim (Bool-cases (action_before row x)) [
  | inl first ↦ rw (first, insert_by_age) Perm.rfl
  | inr later ↦
      rw (later, insert_by_age)
        (Perm.trans (Perm.cons x (insert_by_age-perm row rows)) (Perm.swap row x rows))
]

insert_by_age-IsOldestFirst :
    (row : ActionRow) (rows : List ActionRow)
    → IsOldestFirst rows
    → IsOldestFirst (insert_by_age row rows)
unfolding insert_by_age
insert_by_age-IsOldestFirst row [] h = (tt, tt)
insert_by_age-IsOldestFirst row (x ∷ rows) (above, h) = elim (Bool-cases (action_before row x)) [
  | inl first ↦
      let older : row.created_at ≤ x.created_at = ground arith in
      rw (first, insert_by_age)
        (
          (
            older,
            All-map (λ (y : ActionRow). x.created_at ≤ y.created_at)
                (λ (y : ActionRow). row.created_at ≤ y.created_at) rows
                (λ y le. omega (arith, older, le)) above,
          ),
          (above, h),
        )
  | inr later ↦
      let younger : x.created_at ≤ row.created_at = ground arith in
      rw (later, insert_by_age)
        (
          insert_by_age-All (λ (y : ActionRow). x.created_at ≤ y.created_at) row rows younger above,
          insert_by_age-IsOldestFirst row rows h,
        )
]

sort_by_age-perm : (rows : List ActionRow) → Perm (sort_by_age rows) rows
unfolding sort_by_age
sort_by_age-perm [] = Perm.rfl
sort_by_age-perm (x ∷ rows) =
    Perm.trans (insert_by_age-perm x (sort_by_age rows)) (Perm.cons x (sort_by_age-perm rows))

sort_by_age-IsOldestFirst : (rows : List ActionRow) → IsOldestFirst (sort_by_age rows)
unfolding sort_by_age
sort_by_age-IsOldestFirst [] = tt
sort_by_age-IsOldestFirst (x ∷ rows) =
    insert_by_age-IsOldestFirst x (sort_by_age rows) (sort_by_age-IsOldestFirst rows)

stale-reapable :
    (locked : String → Bool) (t : ℕ) (rows : List ActionRow)
    → select (λ (r : ActionRow). if locked r.id then false else is_stale t r) rows
      ≡ select (is_reapable locked t) rows
stale-reapable locked t [] = refl
stale-reapable locked t (x ∷ rows) = elim (Bool-cases (locked x.id)) [
  | inl held ↦ ground (arith, held, stale-reapable locked t rows)
  | inr free ↦ ground (arith, free, stale-reapable locked t rows)
]

pub list_stale_pending_actions-IsBatchOf :
    (locked : String → Bool) (t limit : ℕ) (actions : List ActionRow)
    → IsBatchOf locked t limit actions (list_stale_pending_actions locked t limit actions)
unfolding list_stale_pending_actions
list_stale_pending_actions-IsBatchOf locked t limit actions =
    let stale = select (λ (r : ActionRow). if locked r.id then false else is_stale t r) actions in
    (
      sort_by_age stale,
      subst (Perm (sort_by_age stale)) (stale-reapable locked t actions) (sort_by_age-perm stale),
      sort_by_age-IsOldestFirst stale,
      refl,
    )
