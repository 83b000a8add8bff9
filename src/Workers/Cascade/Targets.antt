-- ===== src/Workers/Cascade/Targets.antt =====
-- Which authorities an account event revokes, and how each reads afterwards.
use helpan_ai.Prelude.{
  ℕ, String, Bool, false, ◌&&◌, ◌||◌, some, List, [], ◌∷◌, ◌≡◌, refl, ap, ◌∙◌, inl, inr, arith, any,
  select, find, find-admits, ◌==◌, eq_iff, Bool-cases, if◌then◌else◌,
}
use mathlib.Core.Path.{subst}
use helpan_ai.World.{World}
use helpan_ai.Store.{Db}
use helpan_ai.Store.Rows.{DelegatedAuthorityRow, OauthScopeRow, authority_is_active}
use helpan_ai.Store.Tx.{ok}
use helpan_ai.Authorities.Repo.{
  RevokeAuthorityPatch, get_authority_by_id, is_active_of_account, is_active_with_id, revoked_row,
}
use helpan_ai.Authorities.Repo.Keys.{has_id, HasUniqueIds, revoke_rows}
use helpan_ai.Workers.Cascade.{
  AccountEvent, CascadeTrigger, account_suspended, kyc_downgraded, ignored, CascadeResult, Cascade,
  cascade_of, trigger_of, targets_of, insert_newer, sort_newest, is_high_stakes_authority,
  list_active_authorities_for_account, handle_account_event,
}
use helpan_ai.Workers.Cascade.Laws.{cascade_patch, revoke_each}
use helpan_ai.Workers.Cascade.Effects.{handle_account_event-rows}

-- What revoking one id makes of a row.
abbrev revoked_if : RevokeAuthorityPatch → Bool → DelegatedAuthorityRow → DelegatedAuthorityRow
revoked_if patch b r = if b then revoked_row patch r else r

get_authority_by_id-revoke_rows_any :
    (id : String) (patch : RevokeAuthorityPatch) (j : String) (rows : List DelegatedAuthorityRow)
    (r : DelegatedAuthorityRow)
    → get_authority_by_id rows j ≡ some r
    → get_authority_by_id (revoke_rows id patch rows) j
      ≡ some (revoked_if patch (is_active_with_id id r) r)
unfolding get_authority_by_id
get_authority_by_id-revoke_rows_any id patch j [] r h = absurd (cc)
get_authority_by_id-revoke_rows_any id patch j (x ∷ rows) r h = elim (Bool-cases (x.id == j)) [
  | inl here ↦
      let same : x ≡ r = ground arith in
      rw (← same) (elim (Bool-cases (is_active_with_id id x)) [
        | inl hit ↦ ground arith
        | inr miss ↦ ground arith
      ])
  | inr other ↦
      let rest : find (λ (q : DelegatedAuthorityRow). q.id == j) rows ≡ some r = ground arith in
      ground (arith, get_authority_by_id-revoke_rows_any id patch j rows r rest)
]

module _ (q : DelegatedAuthorityRow → Bool) where
  any-insert_newer :
      (x : DelegatedAuthorityRow) (xs : List DelegatedAuthorityRow)
      → any q (insert_newer x xs) ≡ (q x || any q xs)
  unfolding insert_newer
  any-insert_newer x [] = refl
  any-insert_newer x (y ∷ ys) = ground (arith, any-insert_newer x ys)

  any-sort_newest : (xs : List DelegatedAuthorityRow) → any q (sort_newest xs) ≡ any q xs
  unfolding sort_newest
  any-sort_newest [] = refl
  any-sort_newest (x ∷ xs) =
      any-insert_newer x (sort_newest xs) ∙ ap (λ b. q x || b) (any-sort_newest xs)

revoke_each-get :
    (c : Cascade) (targets : List DelegatedAuthorityRow) (j : String)
    (rows : List DelegatedAuthorityRow) (r : DelegatedAuthorityRow)
    → get_authority_by_id rows j ≡ some r
    → get_authority_by_id (revoke_each c targets rows) j
      ≡ some (
          revoked_if
            (cascade_patch c)
            (any (has_id r.id) targets && authority_is_active r.status)
            r)
unfolding revoke_each
revoke_each-get c [] j rows r h = h
revoke_each-get c (t ∷ ts) j rows r h =
    let next = get_authority_by_id-revoke_rows_any t.id (cascade_patch c) j rows r h in
    elim (Bool-cases (is_active_with_id t.id r)) [
      | inl hit ↦
          revoke_each-get c ts j _ _ next ∙ ground (arith, eq_iff r.id t.id, eq_iff t.id r.id)
      | inr miss ↦
          revoke_each-get c ts j _ _ next ∙ ground (arith, eq_iff r.id t.id, eq_iff t.id r.id)
    ]

any-select :
    (p q : DelegatedAuthorityRow → Bool) (rows : List DelegatedAuthorityRow)
    → any q (select p rows) ≡ any (λ r. p r && q r) rows
any-select p q [] = refl
any-select p q (x ∷ rows) = ground (arith, any-select p q rows)

any-none :
    (p : DelegatedAuthorityRow → Bool) (j : String) (rows : List DelegatedAuthorityRow)
    → any (has_id j) rows ≡ false
    → any (λ r. p r && has_id j r) rows ≡ false
any-none p j [] h = refl
any-none p j (x ∷ rows) h = ground (arith, any-none p j rows)

any_unique :
    (p : DelegatedAuthorityRow → Bool) (j : String) (rows : List DelegatedAuthorityRow)
    (r : DelegatedAuthorityRow)
    → HasUniqueIds rows
    → get_authority_by_id rows j ≡ some r
    → any (λ x. p x && has_id j x) rows ≡ p r
unfolding get_authority_by_id
any_unique p j [] r h f = absurd (cc)
any_unique p j (x ∷ rows) r (first, h) f = elim (Bool-cases (x.id == j)) [
  | inl here ↦
      let same : x ≡ r = ground arith in
      let alone : any (has_id j) rows ≡ false =
        subst (λ i. any (has_id i) rows ≡ false) ((eq_iff x.id j).0 here) first in
      rw (← same) (ground (arith, any-none p j rows alone))
  | inr other ↦
      let rest : find (λ (q : DelegatedAuthorityRow). q.id == j) rows ≡ some r = ground arith in
      ground (arith, any_unique p j rows r h rest)
]

any-same :
    (p q : DelegatedAuthorityRow → Bool) (rows : List DelegatedAuthorityRow)
    → ((r : DelegatedAuthorityRow) → p r ≡ q r)
    → any p rows ≡ any q rows
any-same p q [] h = refl
any-same p q (x ∷ rows) h = ground (arith, h x, any-same p q rows h)

-- What a trigger says of one authority: active for the account and, for a downgrade, of high
-- stakes.
abbrev pub is_target : List OauthScopeRow → CascadeTrigger → String → DelegatedAuthorityRow → Bool
is_target scopes kyc_downgraded account r =
    is_active_of_account account r && is_high_stakes_authority scopes r
is_target scopes _ account r = is_active_of_account account r

any_id-targets_of :
    (db : Db) (trigger : CascadeTrigger) (account j : String)
    → any (has_id j) (targets_of db trigger account)
      ≡ any
          (λ r. is_target db.oauth_scopes trigger account r && has_id j r)
          db.delegated_authorities
unfolding targets_of list_active_authorities_for_account
any_id-targets_of db kyc_downgraded account j =
    let rows = db.delegated_authorities in
    let high = is_high_stakes_authority db.oauth_scopes in
    any-select high (has_id j) (sort_newest (select (is_active_of_account account) rows))
    ∙ any-sort_newest (λ r. high r && has_id j r) (select (is_active_of_account account) rows)
    ∙ any-select (is_active_of_account account) (λ r. high r && has_id j r) rows
    ∙ any-same (λ r. is_active_of_account account r && (high r && has_id j r))
        (λ r. is_target db.oauth_scopes kyc_downgraded account r && has_id j r) rows
        (λ r. ground arith)
any_id-targets_of db account_suspended account j =
    any-sort_newest (has_id j) (select (is_active_of_account account) db.delegated_authorities)
    ∙ any-select (is_active_of_account account) (has_id j) db.delegated_authorities
any_id-targets_of db ignored account j =
    any-sort_newest (has_id j) (select (is_active_of_account account) db.delegated_authorities)
    ∙ any-select (is_active_of_account account) (has_id j) db.delegated_authorities

get_authority_by_id-id :
    (j : String) (row : DelegatedAuthorityRow) (rows : List DelegatedAuthorityRow)
    → get_authority_by_id rows j ≡ some row
    → get_authority_by_id rows row.id ≡ some row
unfolding get_authority_by_id
get_authority_by_id-id j row rows found =
    let same =
      (eq_iff row.id j).0 (find-admits (λ (q : DelegatedAuthorityRow). q.id == j) rows row found) in
    ap (get_authority_by_id rows) same ∙ found

-- A target is active.
targets_active :
    (scopes : List OauthScopeRow) (trigger : CascadeTrigger) (account : String)
    (r : DelegatedAuthorityRow)
    → (is_target scopes trigger account r && authority_is_active r.status)
      ≡ is_target scopes trigger account r
targets_active scopes kyc_downgraded account r = ground arith
targets_active scopes account_suspended account r = ground arith
targets_active scopes ignored account r = ground arith

-- Where ids are unique and no other transaction writes authorities meanwhile, when the cascade of
-- an event returns, a stored authority reads as revoked by the event if it was active for the
-- account and, for a downgrade, has a high-stakes scope; any other reads as it was.
pub handle_account_event-reads :
    (w : World) (between : Db → Db) (event : AccountEvent) (request_id : String) (now tx_now : ℕ)
    (db : Db) (trigger : CascadeTrigger) (account event_type : String) (r : CascadeResult)
    (db' : Db)
    → trigger_of event ≡ some (trigger, account, event_type)
    → handle_account_event w between event request_id now tx_now db ≡ ok (r, db')
    → (between db).delegated_authorities ≡ db.delegated_authorities
    → HasUniqueIds db.delegated_authorities
    → (j : String) (row : DelegatedAuthorityRow)
    → get_authority_by_id db.delegated_authorities j ≡ some row
    → get_authority_by_id db'.delegated_authorities j
      ≡ some (
          if is_target db.oauth_scopes trigger account row
          then revoked_row
              (cascade_patch (cascade_of event trigger account event_type request_id now tx_now))
              row
          else row)
handle_account_event-reads w between event request_id now tx_now db trigger account event_type r db'
      triggers handled apart unique j row found =
    let c = cascade_of event trigger account event_type request_id now tx_now in
    let targets = targets_of db trigger account in
    let target = is_target db.oauth_scopes trigger account in
    let named : any (has_id row.id) targets ≡ target row =
      any_id-targets_of db trigger account row.id
      ∙ any_unique target row.id db.delegated_authorities row unique
          (get_authority_by_id-id j row db.delegated_authorities found) in
    ap (λ rows. get_authority_by_id rows j)
      (handle_account_event-rows w between event request_id now tx_now db trigger account event_type
        r db' triggers handled)
    ∙ ap (λ rows. get_authority_by_id (revoke_each c targets rows) j) apart
    ∙ revoke_each-get c targets j db.delegated_authorities row found
    ∙ ap (λ b. some (revoked_if (cascade_patch c) (b && authority_is_active row.status) row)) named
    ∙ ap (λ b. some (revoked_if (cascade_patch c) b row))
        (targets_active db.oauth_scopes trigger account row)
