-- ===== src/Authorities/Repo/Keys.antt =====
-- The primary key of `delegated_authorities`, and what a revocation does to reads by it.
use helpan_ai.Prelude.{
  String, Bool, false, some, List, [], ◌∷◌, ◌++◌, ◌≡◌, refl, ◌∙◌, arith, ◌==◌, eq_iff, any, find,
  find-any, find-admits, update_where, Bool-cases, inl, inr,
}
use helpan_ai.Store.Rows.{DelegatedAuthorityRow}
use helpan_ai.Authorities.Repo.{
  RevokeAuthorityPatch, get_authority_by_id, revoked_row, is_active_with_id,
}

abbrev pub has_id : String → DelegatedAuthorityRow → Bool
has_id id row = row.id == id

-- `delegated_authorities_pkey`.
abbrev pub HasUniqueIds : List DelegatedAuthorityRow → Type 0
HasUniqueIds [] = Unit
HasUniqueIds (row ∷ rows) = (any (has_id row.id) rows ≡ false) × HasUniqueIds rows

any_id-append :
    (id : String) (rows : List DelegatedAuthorityRow) (row : DelegatedAuthorityRow)
    → any (has_id id) rows ≡ false
    → has_id id row ≡ false
    → any (has_id id) (rows ++ row ∷ []) ≡ false
any_id-append id [] row h k = ground arith
any_id-append id (x ∷ rows) row h k = ground (arith, any_id-append id rows row)

pub append-HasUniqueIds :
    (rows : List DelegatedAuthorityRow) (row : DelegatedAuthorityRow)
    → HasUniqueIds rows
    → any (has_id row.id) rows ≡ false
    → HasUniqueIds (rows ++ row ∷ [])
append-HasUniqueIds [] row h fresh = (refl, tt)
append-HasUniqueIds (x ∷ rows) row (first, h) fresh = (
  any_id-append x.id rows row first (ground (arith, eq_iff row.id x.id, eq_iff x.id row.id)),
  append-HasUniqueIds rows row h (ground arith),
)

module _ (p : DelegatedAuthorityRow → Bool) (patch : RevokeAuthorityPatch) where
  any_id-update_where :
      (id : String) (rows : List DelegatedAuthorityRow)
      → any (has_id id) (update_where p (revoked_row patch) rows) ≡ any (has_id id) rows
  any_id-update_where id [] = refl
  any_id-update_where id (x ∷ rows) = ground (arith, any_id-update_where id rows)

  pub update_where-HasUniqueIds :
      (rows : List DelegatedAuthorityRow)
      → HasUniqueIds rows
      → HasUniqueIds (update_where p (revoked_row patch) rows)
  update_where-HasUniqueIds [] h = tt
  update_where-HasUniqueIds (x ∷ rows) (first, h) = elim (Bool-cases (p x)) [
    | inl yes_p ↦
        rw (yes_p, update_where)
          (any_id-update_where x.id rows ∙ first, update_where-HasUniqueIds rows h)
    | inr no_p ↦
        rw (no_p, update_where)
          (any_id-update_where x.id rows ∙ first, update_where-HasUniqueIds rows h)
  ]

module _ (id : String) (patch : RevokeAuthorityPatch) where
  abbrev pub revoke_rows : List DelegatedAuthorityRow → List DelegatedAuthorityRow
  revoke_rows rows = update_where (is_active_with_id id) (revoked_row patch) rows

  active_elsewhere :
      (x : DelegatedAuthorityRow) (rows : List DelegatedAuthorityRow) (row : DelegatedAuthorityRow)
      → find (is_active_with_id id) rows ≡ some row
      → any (has_id x.id) rows ≡ false
      → (x.id == id) ≡ false
  active_elsewhere x rows row f fresh = elim (Bool-cases (x.id == id)) [
    | inr other ↦ other
    | inl same ↦
        let admitted = find-admits (is_active_with_id id) rows row f in
        absurd (
          ground (
            arith,
            eq_iff x.id id,
            eq_iff row.id id,
            eq_iff row.id x.id,
            find-any (is_active_with_id id) (has_id x.id) rows row f,
          ))
  ]

  -- Where ids are unique, the row that is revoked is the one that reads by its id see.
  pub get_authority_by_id-revoke_rows :
      (rows : List DelegatedAuthorityRow) (row : DelegatedAuthorityRow)
      → HasUniqueIds rows
      → find (is_active_with_id id) rows ≡ some row
      → get_authority_by_id (revoke_rows rows) id ≡ some (revoked_row patch row)
  unfolding get_authority_by_id
  get_authority_by_id-revoke_rows [] row h f = absurd (cc)
  get_authority_by_id-revoke_rows (x ∷ rows) row (first, h) f =
      elim (Bool-cases (is_active_with_id id x)) [
        | inl here ↦ ground arith
        | inr other ↦
            let later : find (is_active_with_id id) rows ≡ some row = ground arith in
            ground (
              arith,
              active_elsewhere x rows row later first,
              get_authority_by_id-revoke_rows rows row h later,
            )
      ]

  pub get_authority_by_id-revoke_rows_other :
      (j : String) (rows : List DelegatedAuthorityRow)
      → (id == j) ≡ false
      → get_authority_by_id (revoke_rows rows) j ≡ get_authority_by_id rows j
  unfolding get_authority_by_id
  get_authority_by_id-revoke_rows_other j [] h = refl
  get_authority_by_id-revoke_rows_other j (x ∷ rows) h = ground (
    arith,
    eq_iff x.id id,
    eq_iff x.id j,
    eq_iff id j,
    get_authority_by_id-revoke_rows_other j rows h,
  )
