-- ===== src/Workers/Cascade/Effects.antt =====
-- What an account event has done when its cascade returns.
use helpan_ai.Prelude.{
  ℕ, String, false, some, List, [], ◌∷◌, ◌≡◌, refl, sym, ap, ◌∙◌, ◌⊎◌, inl, inr, arith, any, select,
  ◌==◌, eq_iff, Bool-cases,
}
use mathlib.Core.Path.{subst}
use helpan_ai.World.{World}
use helpan_ai.Store.{Db}
use helpan_ai.Store.Rows.{DelegatedAuthorityRow, authority_is_active}
use helpan_ai.Store.Tx.{ok, bind-eq-ok}
use helpan_ai.Authorities.Repo.{get_authority_by_id, is_active_of_account}
use helpan_ai.Authorities.Repo.Keys.{has_id, revoke_rows}
use helpan_ai.Workers.Cascade.{
  AccountEvent, CascadeTrigger, account_suspended, CascadeResult, Cascade, cascade_of, trigger_of,
  targets_of, insert_newer, sort_newest, list_active_authorities_for_account, revoke_targets,
  handle_account_event, run_cascade,
}
use helpan_ai.Workers.Cascade.Laws.{
  cascade_patch, revoke_each, revoke_targets-rows, AreDead, IsDead, revoke_each-AreDead,
  revoke_each-other,
}

-- Each row as it was, or no longer active.
abbrev IsLater : DelegatedAuthorityRow → DelegatedAuthorityRow → Type 0
IsLater before after =
    (after.id ≡ before.id)
    × (after.account_uuid ≡ before.account_uuid)
    × ((authority_is_active after.status ≡ false)
        ⊎ (authority_is_active after.status ≡ authority_is_active before.status))

abbrev AreLater : List DelegatedAuthorityRow → List DelegatedAuthorityRow → Type 0
AreLater [] [] = Unit
AreLater [] (s ∷ ss) = ⊥
AreLater (r ∷ rs) [] = ⊥
AreLater (r ∷ rs) (s ∷ ss) = IsLater r s × AreLater rs ss

module _ (c : Cascade) where
  revoke_rows-AreLater :
      (id : String) (rows later : List DelegatedAuthorityRow)
      → AreLater rows later
      → AreLater rows (revoke_rows id (cascade_patch c) later)
  revoke_rows-AreLater id [] [] h = tt
  revoke_rows-AreLater id [] (s ∷ ss) h = absurd h
  revoke_rows-AreLater id (r ∷ rs) [] h = absurd h
  revoke_rows-AreLater id (r ∷ rs) (s ∷ ss) (p, h) = ground (arith, revoke_rows-AreLater id rs ss h)

  revoke_each-AreLater :
      (targets rows later : List DelegatedAuthorityRow)
      → AreLater rows later
      → AreLater rows (revoke_each c targets later)
  unfolding revoke_each
  revoke_each-AreLater [] rows later h = h
  revoke_each-AreLater (t ∷ ts) rows later h =
      revoke_each-AreLater ts rows _ (revoke_rows-AreLater t.id rows later h)

AreLater-refl : (rows : List DelegatedAuthorityRow) → AreLater rows rows
AreLater-refl [] = tt
AreLater-refl (r ∷ rs) = ((refl, refl, inr refl), AreLater-refl rs)

AreDead-tail :
    (s : DelegatedAuthorityRow) (ss targets : List DelegatedAuthorityRow)
    → AreDead (s ∷ ss) targets
    → AreDead ss targets
AreDead-tail s ss [] h = tt
AreDead-tail s ss (t ∷ ts) (p, h) = (ground arith, AreDead-tail s ss ts h)

none_active :
    (account : String) (rows later : List DelegatedAuthorityRow)
    → AreLater rows later
    → AreDead later (select (is_active_of_account account) rows)
    → any (is_active_of_account account) later ≡ false
none_active account [] [] h d = refl
none_active account [] (s ∷ ss) h d = absurd h
none_active account (r ∷ rs) [] h d = absurd h
none_active account (r ∷ rs) (s ∷ ss) ((same_id, same_account, kept), h) d =
    elim (Bool-cases (is_active_of_account account r)) [
      | inl hit ↦
          let (dead, rest) : AreDead (s ∷ ss) (r ∷ select (is_active_of_account account) rs) =
            (rw (hit, select) at d) in
          ground (arith, eq_iff s.id r.id, none_active account rs ss h (AreDead-tail s ss _ rest))
      | inr miss ↦
          let rest : AreDead (s ∷ ss) (select (is_active_of_account account) rs) =
            (rw (miss, select) at d) in
          ground (
            arith,
            ap (λ a. a == account) same_account,
            none_active account rs ss h (AreDead-tail s ss _ rest),
          )
    ]

module _ (later : List DelegatedAuthorityRow) where
  insert_newer-AreDead :
      (row : DelegatedAuthorityRow) (rows : List DelegatedAuthorityRow)
      → AreDead later (insert_newer row rows)
      → IsDead later row.id × AreDead later rows
  unfolding insert_newer
  insert_newer-AreDead row [] h = h
  insert_newer-AreDead row (x ∷ rows) h = ground (arith, insert_newer-AreDead row rows)

  sort_newest-AreDead :
      (rows : List DelegatedAuthorityRow) → AreDead later (sort_newest rows) → AreDead later rows
  unfolding sort_newest
  sort_newest-AreDead [] h = tt
  sort_newest-AreDead (x ∷ rows) h =
      let (p, rest) = insert_newer-AreDead x (sort_newest rows) h in
      (p, sort_newest-AreDead rows rest)

module _ (w : World) (between : Db → Db) (event : AccountEvent) (request_id : String)
    (now tx_now : ℕ) (db : Db) (trigger : CascadeTrigger) (account event_type : String)
    (r : CascadeResult) (db' : Db)
    (triggers : trigger_of event ≡ some (trigger, account, event_type))
    (handled : handle_account_event w between event request_id now tx_now db ≡ ok (r, db')) where
  abbrev pub this_cascade : Cascade
  this_cascade = cascade_of event trigger account event_type request_id now tx_now

  run_cascade-rows :
      (targets : List DelegatedAuthorityRow)
      → run_cascade w this_cascade trigger targets (between db) ≡ ok (r, db')
      → db'.delegated_authorities
        ≡ revoke_each this_cascade targets (between db).delegated_authorities
  unfolding revoke_each
  run_cascade-rows [] h = ground arith
  run_cascade-rows (t ∷ ts) h =
      let (n, db2, revokes, returns) =
        bind-eq-ok (revoke_targets w this_cascade (t ∷ ts)) _ (between db) h in
      let ends : db' ≡ db2 = ground arith in
      ap (λ (d : Db). d.delegated_authorities) ends
      ∙ revoke_targets-rows w this_cascade (t ∷ ts) (between db) n db2 revokes

  pub handle_account_event-rows :
      db'.delegated_authorities
      ≡ revoke_each this_cascade (targets_of db trigger account) (between db).delegated_authorities
  unfolding handle_account_event
  handle_account_event-rows = run_cascade-rows (targets_of db trigger account) (ground arith)

  targets_dead : AreDead db'.delegated_authorities (targets_of db trigger account)
  targets_dead =
      subst (λ rows. AreDead rows (targets_of db trigger account)) (sym handle_account_event-rows)
        (revoke_each-AreDead this_cascade (targets_of db trigger account)
          (between db).delegated_authorities)

  -- When a cascade returns, no target of its event is active, and an authority that is no target
  -- reads as it did when the cascade's transaction began.
  pub handle_account_event-targets :
      (j : String)
      → any (has_id j) (targets_of db trigger account) ≡ false
      → AreDead db'.delegated_authorities (targets_of db trigger account)
        × (get_authority_by_id db'.delegated_authorities j
            ≡ get_authority_by_id (between db).delegated_authorities j)
  handle_account_event-targets j apart = (
    targets_dead,
    ap (λ rows. get_authority_by_id rows j) handle_account_event-rows
        ∙ revoke_each-other this_cascade (targets_of db trigger account)
            (between db).delegated_authorities j apart,
  )

  -- Where no other transaction writes authorities meanwhile, a suspended account has no active
  -- authority left when the cascade of its ACCOUNT_SUSPENDED returns.
  pub handle_account_event-none_active :
      trigger ≡ account_suspended
      → (between db).delegated_authorities ≡ db.delegated_authorities
      → any (is_active_of_account account) db'.delegated_authorities ≡ false
  unfolding targets_of list_active_authorities_for_account
  handle_account_event-none_active suspended apart =
      let rows = db.delegated_authorities in
      let listed : targets_of db trigger account
          ≡ sort_newest (select (is_active_of_account account) rows) =
        ap (λ t. targets_of db t account) suspended in
      let later : AreLater rows db'.delegated_authorities =
        subst (AreLater rows)
          (sym (
            handle_account_event-rows
            ∙ ap (revoke_each this_cascade (targets_of db trigger account)) apart))
          (revoke_each-AreLater this_cascade (targets_of db trigger account) rows rows
            (AreLater-refl rows)) in
      let dead = subst (AreDead db'.delegated_authorities) listed targets_dead in
      none_active account rows db'.delegated_authorities later
        (sort_newest-AreDead db'.delegated_authorities _ dead)
