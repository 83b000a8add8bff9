-- ===== src/Audit/Drift.antt =====
-- An entry whose transaction began before that of the newest entry. `created_at` is the NOW() of
-- the transaction, which PostgreSQL fixes at its start, and the lock is taken later, so such an
-- entry is appended whenever two transactions overlap in that order.
use helpan_ai.Prelude.{
  ℕ, ◌<◌, String, true, false, Option, none, some, List, [], ◌∷◌, ◌++◌, ◌≡◌, refl, ap, arith, last,
  All, Bool-cases, inl, inr, ◌==◌,
}
use helpan_ai.World.{World}
use helpan_ai.Store.{Db}
use helpan_ai.Store.Rows.{AuditLogRow}
use helpan_ai.Store.Tx.{ok}
use helpan_ai.Audit.{AppendedAuditEntry, key_before, insert_row, audit_row, append_audit_entry}
use helpan_ai.Audit.Hash.{AuditEntry}
use helpan_ai.Audit.Verify.{same_text, pointer_failures, verify_from, verify_chain}
use helpan_ai.Audit.Chain.{append_audit_entry-ok}

mismatch_counts :
    (w : World) (prior : Option String) (r : AuditLogRow) (rows : List AuditLogRow)
    → same_text r.previous_hash prior ≡ false
    → 0 < verify_from w prior (r ∷ rows)
unfolding verify_from pointer_failures
mismatch_counts w prior r rows h = rw h (omega arith)

later_counts :
    (w : World) (prior : Option String) (x : AuditLogRow) (rows : List AuditLogRow)
    → 0 < verify_from w (some x.entry_hash) rows
    → 0 < verify_from w prior (x ∷ rows)
unfolding verify_from
later_counts w prior x rows h = omega arith

module _ (w : World) (r latest : AuditLogRow) where
  verify_from-misplaced :
      (prior : Option String) (front : List AuditLogRow)
      → key_before r.created_at r.id latest ≡ true
      → same_text r.previous_hash prior ≡ false
      → All (λ x. same_text r.previous_hash (some x.entry_hash) ≡ false) front
      → 0 < verify_from w prior (insert_row r (front ++ latest ∷ []))
  unfolding insert_row
  verify_from-misplaced prior [] before here far =
      rw (before, insert_row) (mismatch_counts w prior r (latest ∷ []) here)
  verify_from-misplaced prior (x ∷ xs) before here (next, far) =
      elim (Bool-cases (key_before r.created_at r.id x)) [
        | inl first ↦
            rw (first, insert_row) (mismatch_counts w prior r (x ∷ xs ++ latest ∷ []) here)
        | inr later ↦
            rw (later, insert_row)
              (later_counts w prior x _
                (verify_from-misplaced (some x.entry_hash) xs before next far))
      ]

last-append {ℓ} : {A : Type ℓ} (xs : List A) (x : A) → last (xs ++ x ∷ []) ≡ some x
last-append [] x = refl
last-append (y ∷ []) x = refl
last-append (y ∷ z ∷ xs) x = last-append (z ∷ xs) x

-- Whatever the state of the chain: an entry that is appended with a key (created_at, id) before
-- that of the newest row, in a log where no other row has the newest row's hash, leaves a log in
-- which the verifier reports a failure.
pub append_late-verify_chain :
    (w : World) (tx_now : ℕ) (e : AuditEntry) (db : Db) (a : AppendedAuditEntry) (db' : Db)
    (front : List AuditLogRow) (latest : AuditLogRow)
    → append_audit_entry w tx_now e db ≡ ok (a, db')
    → db.audit_log ≡ front ++ latest ∷ []
    → key_before tx_now (w.ulid db.minted) latest ≡ true
    → All (λ x. (latest.entry_hash == x.entry_hash) ≡ false) front
    → 0 < verify_chain w db'.audit_log
unfolding verify_chain audit_row
append_late-verify_chain w tx_now e db a db' front latest appended rows before far =
    let (found, newest, same) = append_audit_entry-ok w tx_now e db appended in
    let is_latest : latest ≡ found = cc (rows, newest, ap last rows, last-append front latest) in
    let row = audit_row w tx_now (w.ulid db.minted) latest.entry_hash e in
    let grown : db'.audit_log ≡ insert_row row (front ++ latest ∷ []) =
      cc (ap (λ (d : Db). d.audit_log) same, rows, is_latest) in
    rw grown (verify_from-misplaced w row latest none front before refl far)
