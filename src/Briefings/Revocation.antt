-- ===== src/Briefings/Revocation.antt =====
-- The briefings after `revokeBriefing`.
use helpan_ai.Prelude.{
  ℕ, String, Bool, true, false, Option, none, some, Option-cases, ◌≡◌, sym, ap, ◌∙◌, find,
  update_where, update_where-eq_self, any-find-none, inl, inr, if◌then◌else◌,
}
use helpan_ai.World.{World}
use helpan_ai.Store.{Db}
use helpan_ai.Store.Briefings.{briefing_is_revoked}
use helpan_ai.Store.Tx.{ok, Tx, ◌>>=◌, ◌>>◌, pure, bind-eq-ok}
use helpan_ai.Audit.{append_audit_entry}
use helpan_ai.Audit.Hash.{AuditEntry}
use helpan_ai.Audit.Chain.{append_audit_entry-ok}
use helpan_ai.Briefings.Repo.{
  is_own_briefing, revoked_briefing, soft_revoke_briefing, returned, update_own, get_briefing_by_id,
}
use helpan_ai.Briefings.Service.{
  AuditContext, BriefingDto, revoke_briefing, revoke_existing, audited, append, revoke_entry,
  to_briefing_dto,
}

-- An audit entry leaves the briefings as they are.
append-briefings :
    (w : World) (tx_now : ℕ) (e : AuditEntry) (db : Db) (u : Unit {0}) (db' : Db)
    → append w tx_now e db ≡ ok (u, db')
    → db'.briefings ≡ db.briefings
append-briefings w tx_now e db u db' h =
    let (entry, db1, appends, ends) =
      bind-eq-ok (append_audit_entry w tx_now e) (λ _. pure tt) db h in
    let (latest, found, same) = append_audit_entry-ok w tx_now e db appends in
    let last : db1 ≡ db' = cc in ap (λ (d : Db). d.briefings) (sym last ∙ same)

unless-briefings :
    (test : Bool) (w : World) (tx_now : ℕ) (e : AuditEntry) (db : Db) (u : Unit {0}) (db' : Db)
    → (if test then pure tt else append w tx_now e) db ≡ ok (u, db')
    → db'.briefings ≡ db.briefings
unless-briefings true w tx_now e db u db' h =
    let same : db ≡ db' = cc in ap (λ (d : Db). d.briefings) (sym same)
unless-briefings false w tx_now e db u db' h = append-briefings w tx_now e db u db' h

pub revoke_briefing-briefings :
    (w : World) (audit : AuditContext) (id : String) (now tx_now : ℕ) (db : Db)
    (o : Option BriefingDto) (db' : Db)
    → revoke_briefing w audit id now tx_now db ≡ ok (o, db')
    → db'.briefings
      ≡ update_where (is_own_briefing id audit.account_uuid) (revoked_briefing now) db.briefings
unfolding revoke_briefing soft_revoke_briefing update_own get_briefing_by_id
revoke_briefing-briefings w audit id now tx_now db o db' h =
    let own = is_own_briefing id audit.account_uuid in
    let revoked : Db = record db {
      briefings = update_where own (revoked_briefing now) db.briefings;
    } in
    elim (Option-cases (find own db.briefings)) [
      | inl missing ↦
          let run : revoke_existing w audit id now tx_now none db ≡ ok (o, db') =
            ap (λ x. revoke_existing w audit id now tx_now x db) (sym missing) ∙ h in
          let same : db ≡ db' = cc in
          ap (λ (d : Db). d.briefings) (sym same)
          ∙ sym (
              update_where-eq_self own (revoked_briefing now) db.briefings
                (any-find-none own db.briefings missing))
      | inr (existing, found) ↦
          let run : revoke_existing w audit id now tx_now (some existing) db ≡ ok (o, db') =
            ap (λ x. revoke_existing w audit id now tx_now x db) (sym found) ∙ h in
          let record_it : Tx Db (Unit {0}) =
            if briefing_is_revoked existing.status
            then pure tt
            else append w tx_now (revoke_entry audit id existing) in
          let later : (record_it >> pure (some (to_briefing_dto (revoked_briefing now existing))))
                revoked
              ≡ ok (o, db') =
            ap
              (λ x.
                (returned id audit.account_uuid (revoked_briefing now) x
                    >>= audited w tx_now (λ row. record_it))
                  db)
              (sym found)
            ∙ run in
          let (u, db1, records, ends) =
            bind-eq-ok record_it
              (λ _. pure (some (to_briefing_dto (revoked_briefing now existing)))) revoked later in
          let same : db1 ≡ db' = cc in
          ap (λ (d : Db). d.briefings) (sym same)
          ∙ unless-briefings (briefing_is_revoked existing.status) w tx_now
              (revoke_entry audit id existing) revoked u db1 records
    ]
