-- ===== src/Workers/Cascade/Laws.antt =====
-- What a cascade leaves of an account's authorities.
use Prim.Native.String.{◌++◌ as concat}
use helpan_ai.Prelude.{
  ℕ, String, false, Option, none, some, List, [], ◌∷◌, ◌≡◌, refl, ap, ◌∙◌, inl, inr, arith, any,
  find, All, Option-cases, any-find-none, update_where-eq_self,
}
use helpan_ai.World.{World}
use helpan_ai.Store.{Db}
use helpan_ai.Store.Rows.{DelegatedAuthorityRow}
use helpan_ai.Store.Tx.{ok, bind-eq-ok}
use helpan_ai.Journal.{IsRecorded-of_run}
use helpan_ai.Authorities.Revoke.{revoked_event}
use helpan_ai.Authorities.Repo.{
  RevokeAuthorityPatch, get_authority_by_id, revoked_row, is_active_with_id,
  revoke_active_authority,
}
use helpan_ai.Authorities.Repo.Keys.{has_id, revoke_rows, get_authority_by_id-revoke_rows_other}
use helpan_ai.Workers.Cascade.{Cascade, cascade_entry, settle_target, revoke_targets}

abbrev pub cascade_patch : Cascade → RevokeAuthorityPatch
cascade_patch c = record {
  reason = c.reason;
  detail = some (concat "cascade:" c.event_type);
  revoked_at = c.now;
}

-- The loop, on the rows of the table alone.
unfoldable pub revoke_each :
    Cascade → List DelegatedAuthorityRow → List DelegatedAuthorityRow → List DelegatedAuthorityRow
revoke_each c [] rows = rows
revoke_each c (t ∷ ts) rows = revoke_each c ts (revoke_rows t.id (cascade_patch c) rows)

revoke_active_authority-rows :
    (id : String) (patch : RevokeAuthorityPatch) (db : Db) (found : Option DelegatedAuthorityRow)
    (db' : Db)
    → revoke_active_authority id patch db ≡ ok (found, db')
    → db'.delegated_authorities ≡ revoke_rows id patch db.delegated_authorities
unfolding revoke_active_authority
revoke_active_authority-rows id patch db found db' h =
    elim (Option-cases (find (is_active_with_id id) db.delegated_authorities)) [
      | inl gone ↦ ground (
        arith,
        update_where-eq_self (is_active_with_id id) (revoked_row patch) db.delegated_authorities
            (any-find-none (is_active_with_id id) db.delegated_authorities gone),
      )
      | inr (row, active) ↦ ground arith
    ]

module _ (w : World) (c : Cascade) where
  settle_target-rows :
      (found : Option DelegatedAuthorityRow) (db : Db) (n : ℕ) (db' : Db)
      → settle_target w c found db ≡ ok (n, db')
      → db'.delegated_authorities ≡ db.delegated_authorities
  unfolding settle_target
  settle_target-rows none db n db' h = ground arith
  settle_target-rows (some updated) db n db' h =
      let (_, (latest, newest, same)) =
        IsRecorded-of_run w c.tx_now
          (cascade_entry c.reason c.account c.event_type c.request_id c.traceparent updated)
          (revoked_event c.reason c.traceparent c.now updated) 1 db n db' h in
      ap (λ (d : Db). d.delegated_authorities) same

  pub revoke_targets-rows :
      (targets : List DelegatedAuthorityRow) (db : Db) (n : ℕ) (db' : Db)
      → revoke_targets w c targets db ≡ ok (n, db')
      → db'.delegated_authorities ≡ revoke_each c targets db.delegated_authorities
  unfolding revoke_targets revoke_each
  revoke_targets-rows [] db n db' h = ground arith
  revoke_targets-rows (t ∷ ts) db n db' h =
      let (found, db1, revokes, h1) =
        bind-eq-ok (revoke_active_authority t.id (cascade_patch c)) _ db h in
      let (k, db2, settles, h2) = bind-eq-ok (settle_target w c found) _ db1 h1 in
      let (m, db3, rest, h3) = bind-eq-ok (revoke_targets w c ts) _ db2 h2 in
      let ends : db' ≡ db3 = ground arith in
      ap (λ (d : Db). d.delegated_authorities) ends
      ∙ revoke_targets-rows ts db2 m db3 rest
      ∙ ap (revoke_each c ts) (
          settle_target-rows found db1 k db2 settles
          ∙ revoke_active_authority-rows t.id (cascade_patch c) db found db1 revokes)

abbrev pub IsDead : List DelegatedAuthorityRow → String → Type 0
IsDead rows id = any (is_active_with_id id) rows ≡ false

abbrev pub AreDead : List DelegatedAuthorityRow → List DelegatedAuthorityRow → Type 0
AreDead rows targets = All (λ (t : DelegatedAuthorityRow). IsDead rows t.id) targets

module _ (c : Cascade) where
  revoke_rows-IsDead :
      (id : String) (rows : List DelegatedAuthorityRow)
      → IsDead (revoke_rows id (cascade_patch c) rows) id
  revoke_rows-IsDead id [] = refl
  revoke_rows-IsDead id (row ∷ rows) = ground (arith, revoke_rows-IsDead id rows)

  revoke_rows-keeps_IsDead :
      (id j : String) (rows : List DelegatedAuthorityRow)
      → IsDead rows j
      → IsDead (revoke_rows id (cascade_patch c) rows) j
  revoke_rows-keeps_IsDead id j [] h = refl
  revoke_rows-keeps_IsDead id j (row ∷ rows) h = ground (arith, revoke_rows-keeps_IsDead id j rows)

  revoke_each-keeps_IsDead :
      (targets rows : List DelegatedAuthorityRow) (j : String)
      → IsDead rows j
      → IsDead (revoke_each c targets rows) j
  unfolding revoke_each
  revoke_each-keeps_IsDead [] rows j h = h
  revoke_each-keeps_IsDead (t ∷ ts) rows j h =
      revoke_each-keeps_IsDead ts _ j (revoke_rows-keeps_IsDead t.id j rows h)

  pub revoke_each-AreDead :
      (targets rows : List DelegatedAuthorityRow) → AreDead (revoke_each c targets rows) targets
  unfolding revoke_each
  revoke_each-AreDead [] rows = tt
  revoke_each-AreDead (t ∷ ts) rows = (
    revoke_each-keeps_IsDead ts _ t.id (revoke_rows-IsDead t.id rows),
    revoke_each-AreDead ts (revoke_rows t.id (cascade_patch c) rows),
  )

  pub revoke_each-other :
      (targets rows : List DelegatedAuthorityRow) (j : String)
      → any (has_id j) targets ≡ false
      → get_authority_by_id (revoke_each c targets rows) j ≡ get_authority_by_id rows j
  unfolding revoke_each
  revoke_each-other [] rows j h = refl
  revoke_each-other (t ∷ ts) rows j h =
      revoke_each-other ts _ j (ground arith)
      ∙ get_authority_by_id-revoke_rows_other t.id (cascade_patch c) j rows (ground arith)
