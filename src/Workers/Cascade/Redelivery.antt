-- ===== src/Workers/Cascade/Redelivery.antt =====
-- An account event that is delivered twice.
use helpan_ai.Prelude.{
  ℕ, String, Bool, false, some, List, [], ◌∷◌, ◌≡◌, refl, ap, arith, any, select,
}
use helpan_ai.World.{World}
use helpan_ai.Store.{Db}
use helpan_ai.Store.Rows.{DelegatedAuthorityRow}
use helpan_ai.Store.Tx.{ok}
use helpan_ai.Authorities.Repo.{is_active_of_account}
use helpan_ai.Workers.Cascade.{
  AccountEvent, account_suspended, CascadeResult, cascade_of, trigger_of, targets_of, sort_newest,
  list_active_authorities_for_account, handle_account_event, run_cascade,
}
use helpan_ai.Workers.Cascade.Effects.{handle_account_event-none_active}

select-none :
    (p : DelegatedAuthorityRow → Bool) (rows : List DelegatedAuthorityRow)
    → any p rows ≡ false
    → select p rows ≡ []
select-none p [] h = refl
select-none p (x ∷ rows) h = ground (arith, select-none p rows)

targets_of-none :
    (db : Db) (account : String)
    → any (is_active_of_account account) db.delegated_authorities ≡ false
    → targets_of db account_suspended account ≡ []
unfolding targets_of list_active_authorities_for_account sort_newest
targets_of-none db account h =
    ap sort_newest (select-none (is_active_of_account account) db.delegated_authorities h)

-- Where no other transaction writes meanwhile, an ACCOUNT_SUSPENDED that is delivered again after
-- its cascade returned revokes nothing and leaves the database as it is.
pub handle_account_event-again :
    (w : World) (event : AccountEvent) (request_id : String) (now tx_now : ℕ) (db : Db)
    (account event_type : String) (r : CascadeResult) (db' : Db)
    → trigger_of event ≡ some (account_suspended, account, event_type)
    → handle_account_event w (λ d. d) event request_id now tx_now db ≡ ok (r, db')
    → (request_id' : String) (now' tx_now' : ℕ)
    → handle_account_event w (λ d. d) event request_id' now' tx_now' db'
      ≡ ok (record { trigger = account_suspended; account_uuid = some account; revoked = 0 }, db')
unfolding handle_account_event
handle_account_event-again w event request_id now tx_now db account event_type r db' triggers
      handled request_id' now' tx_now' =
    let gone =
      handle_account_event-none_active w (λ d. d) event request_id now tx_now db account_suspended
        account event_type r db' triggers handled refl refl in
    rw (triggers, handle_account_event)
      (ap
        (λ targets.
          run_cascade w
            (cascade_of event account_suspended account event_type request_id' now' tx_now')
            account_suspended targets db')
        (targets_of-none db' account gone))
