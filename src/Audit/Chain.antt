-- ===== src/Audit/Chain.antt =====
-- The chain that `appendAuditEntry` extends, as the verifier sees it.
use helpan_ai.Prelude.{
  ℕ, ◌+◌, String, false, Option, none, some, List, [], ◌∷◌, ◌++◌, ◌≡◌, refl, ap, ◌∙◌, arith, last,
  All, ◌==◌, eq_refl, ◌or_else◌, length, Option-cases, inl, inr,
}
use helpan_ai.Json.{obj, end}
use helpan_ai.Json.Stringify.{canonical_json}
use helpan_ai.World.{World}
use helpan_ai.Store.{Db}
use helpan_ai.Store.Rows.{AuditLogRow}
use helpan_ai.Store.Tx.{ok}
use helpan_ai.Audit.{AppendedAuditEntry, key_before, insert_row, audit_row, append_audit_entry}
use helpan_ai.Audit.Hash.{AuditEntry, compute_entry_hash_v2, compute_entry_hash_for_version}
use helpan_ai.Audit.Verify.{
  entry_of_row, genesis_action, pointer_failures, hash_failures, verify_from, verify_chain,
}

insert_row-newest :
    (r : AuditLogRow) (xs : List AuditLogRow)
    → All (λ x. key_before r.created_at r.id x ≡ false) xs
    → insert_row r xs ≡ xs ++ r ∷ []
unfolding insert_row
insert_row-newest r [] h = refl
insert_row-newest r (x ∷ xs) (p, h) =
    rw (p, insert_row) (ap (λ l. x ∷ l) (insert_row-newest r xs h))

abbrev last_hash : Option String → List AuditLogRow → Option String
last_hash prior [] = prior
last_hash prior (x ∷ xs) = last_hash (some x.entry_hash) xs

last_hash-last :
    (prior : Option String) (xs : List AuditLogRow) (r : AuditLogRow)
    → last xs ≡ some r
    → last_hash prior xs ≡ some r.entry_hash
last_hash-last prior [] r h = cc
last_hash-last prior (x ∷ []) r h = ground arith
last_hash-last prior (x ∷ y ∷ xs) r h = last_hash-last (some x.entry_hash) (y ∷ xs) r h

verify_from-append :
    (w : World) (prior : Option String) (xs : List AuditLogRow) (r : AuditLogRow)
    → verify_from w prior (xs ++ r ∷ [])
      ≡ verify_from w prior xs + (pointer_failures (last_hash prior xs) r + hash_failures w r)
unfolding verify_from
verify_from-append w prior [] r = omega arith
verify_from-append w prior (x ∷ xs) r = omega (arith, verify_from-append w (some x.entry_hash) xs r)

-- A document that JSONB gives back with the same canonical text, as the hash is recomputed from
-- what the column returns.
abbrev pub KeepsCanonical : World → AuditEntry → Type 0
KeepsCanonical w e =
    canonical_json (w.jsonb (e.detail or_else obj end)) ≡ canonical_json (e.detail or_else obj end)

module _ (w : World) (tx_now : ℕ) (id previous : String) (e : AuditEntry) where
  hash-audit_row :
      KeepsCanonical w e
      → compute_entry_hash_v2 w id (entry_of_row (audit_row w tx_now id previous e)) previous
        ≡ (audit_row w tx_now id previous e).entry_hash
  unfolding audit_row compute_entry_hash_v2
  hash-audit_row k = rw (k, compute_entry_hash_v2)

  audit_row_verifies :
      KeepsCanonical w e
      → (e.action == genesis_action) ≡ false
      → hash_failures w (audit_row w tx_now id previous e) ≡ 0
  unfolding hash_failures compute_entry_hash_for_version audit_row
  audit_row_verifies k g = rw (g, hash-audit_row k, eq_refl)

  pointer-audit_row : pointer_failures (some previous) (audit_row w tx_now id previous e) ≡ 0
  unfolding pointer_failures audit_row
  pointer-audit_row = rw eq_refl

pub length-insert_row :
    (r : AuditLogRow) (xs : List AuditLogRow) → length (insert_row r xs) ≡ length xs + 1
unfolding insert_row
length-insert_row r [] = omega arith
length-insert_row r (x ∷ xs) = ground (arith, length-insert_row r xs)

module _ (w : World) (tx_now : ℕ) (e : AuditEntry) (db : Db) {a : AppendedAuditEntry} {db' : Db}
    (appended : append_audit_entry w tx_now e db ≡ ok (a, db')) where
  pub append_audit_entry-ok :
      (latest : AuditLogRow) × (last db.audit_log ≡ some latest)
      × (db' ≡ record db {
        audit_log =
            insert_row (audit_row w tx_now (w.ulid db.minted) latest.entry_hash e) db.audit_log;
        minted = db.minted + 1;
      })
  unfolding append_audit_entry
  append_audit_entry-ok = elim (Option-cases (last db.audit_log)) [
    | inl empty ↦ absurd (cc)
    | inr (latest, found) ↦ (latest, found, ground arith)
  ]

  -- An entry that is not named like the genesis row, whose key (created_at, id) no row of the log
  -- stands behind and whose detail comes back from JSONB with the same canonical text, adds no
  -- failure: the verifier counts as many in the longer log as it did before.
  pub append-verify_chain :
      All (λ x. key_before tx_now (w.ulid db.minted) x ≡ false) db.audit_log
      → (e.action == genesis_action) ≡ false
      → KeepsCanonical w e
      → verify_chain w db'.audit_log ≡ verify_chain w db.audit_log
  unfolding verify_chain audit_row
  append-verify_chain newest named kept =
      let (latest, found, same) = append_audit_entry-ok in
      let row = audit_row w tx_now (w.ulid db.minted) latest.entry_hash e in
      let grown : db'.audit_log ≡ db.audit_log ++ row ∷ [] =
        ap (λ (d : Db). d.audit_log) same ∙ insert_row-newest row db.audit_log newest in
      rw grown (
        omega (
          arith,
          verify_from-append w none db.audit_log row,
          ap (λ p. pointer_failures p row) (last_hash-last none db.audit_log latest found),
          pointer-audit_row w tx_now (w.ulid db.minted) latest.entry_hash e,
          audit_row_verifies w tx_now (w.ulid db.minted) latest.entry_hash e kept named,
        ))
