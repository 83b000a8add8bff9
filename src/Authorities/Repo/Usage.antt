-- ===== src/Authorities/Repo/Usage.antt =====
-- `authority_usage`: what the increment of one window does to the reads of all.
use helpan_ai.Prelude.{
  ℕ, ◌+◌, String, false, ◌&&◌, List, [], ◌∷◌, ◌≡◌, arith, ◌==◌, eq_iff, Bool-cases, inl, inr,
}
use helpan_ai.Time.{CivilDate}
use helpan_ai.Store.Rows.{AuthorityUsageRow}
use helpan_ai.Authorities.Repo.{usage_key, get_period_usage_minor, increment_authority_usage}

module _ (tx_now : ℕ) (authority scope : String) (window : CivilDate) (amount : ℕ) where
  pub get_period_usage_minor-increment :
      (rows : List AuthorityUsageRow)
      → get_period_usage_minor
          (increment_authority_usage tx_now authority scope window amount rows)
          authority
          scope
          window
        ≡ get_period_usage_minor rows authority scope window + amount
  unfolding get_period_usage_minor increment_authority_usage
  get_period_usage_minor-increment [] =
      ground (arith, eq_iff authority authority, eq_iff scope scope)
  get_period_usage_minor-increment (row ∷ rows) =
      elim (Bool-cases (usage_key authority scope window row)) [
        | inl here ↦ ground arith
        | inr other ↦ ground (arith, get_period_usage_minor-increment rows)
      ]

  pub get_period_usage_minor-increment_other :
      (rows : List AuthorityUsageRow) (authority' scope' : String) (window' : CivilDate)
      → (authority == authority' && scope == scope') ≡ false
      → get_period_usage_minor
          (increment_authority_usage tx_now authority scope window amount rows)
          authority'
          scope'
          window'
        ≡ get_period_usage_minor rows authority' scope' window'
  unfolding get_period_usage_minor increment_authority_usage
  get_period_usage_minor-increment_other [] authority' scope' window' h =
      ground (arith, eq_iff authority authority', eq_iff scope scope')
  get_period_usage_minor-increment_other (row ∷ rows) authority' scope' window' h = ground (
    arith,
    eq_iff row.authority_id authority,
    eq_iff row.authority_id authority',
    eq_iff authority authority',
    eq_iff row.scope_id scope,
    eq_iff row.scope_id scope',
    eq_iff scope scope',
    get_period_usage_minor-increment_other rows authority' scope' window',
  )
