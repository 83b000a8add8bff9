-- ===== src/Operators/Ceilings.antt =====
-- The ceilings of a scope that an operator has created, and the issuance of authorities.
use helpan_ai.Prelude.{
  ℕ, length, ◌<◌, ◌≤◌, Bool, Bool-cases, true, false, Option, none, some, List, [], ◌∷◌, ◌++◌, ◌≡◌,
  ◌≢◌, is_some, sym, ap, ◌∙◌, ◌⊎◌, inl, inr, arith, All, All-at, any, find, find-append_fresh,
  eq_refl, ◌==◌, ◌or_else◌, if◌then◌else◌,
}
use mathlib.Core.Path.{subst}
use helpan_ai.World.{World}
use helpan_ai.Store.{Db}
use helpan_ai.Store.Rows.{OauthScopeRow, AuthorityScope}
use helpan_ai.Store.Tx.{Result, RailError, ok, err, bind-eq-ok}
use helpan_ai.Audit.{append_audit_entry}
use helpan_ai.Audit.Chain.{append_audit_entry-ok}
use helpan_ai.Scopes.{classify_scope, get_scope_by_id}
use helpan_ai.Authorities.Types.{AuthorityAuditContext, AuthorityDto}
use helpan_ai.Authorities.Conditions.{above, IssueAuthorityArgs}
use helpan_ai.Authorities.Issue.{IssuanceDeps, scope_tables, issue_authority}
use helpan_ai.Authorities.Issue.Checks.{IsAllowed, StepUpVerified, issue_authority-IsAllowed}
use helpan_ai.Operators.Audited.{OperatorAuditContext}
use helpan_ai.Operators.Catalogue.{
  CreateScopeArgs, default_elevation, OauthScopeDto, scope_row, has_scope_id, insert_scope,
  scope_entry, create_new_scope, create_oauth_scope,
}

abbrev pub IsAtMost : Option ℕ → Option ℕ → Type 0
IsAtMost (some limit) (some ceiling) = limit ≤ ceiling
IsAtMost _ _ = Unit

above-IsAtMost : (limit ceiling : Option ℕ) → above limit ceiling ≡ false → IsAtMost limit ceiling
above-IsAtMost none ceiling h = tt
above-IsAtMost (some limit) none h = tt
above-IsAtMost (some limit) (some ceiling) h = ground arith

insert_scope-ok :
    (new : OauthScopeRow) (db : Db) (u : Unit {0}) (db' : Db)
    → insert_scope new db ≡ ok (u, db')
    → (any (has_scope_id new.id) db.oauth_scopes ≡ false)
      × (db' ≡ record db { oauth_scopes = db.oauth_scopes ++ new ∷ [] })
unfolding insert_scope
insert_scope-ok new db u db' h = elim (Bool-cases (any (has_scope_id new.id) db.oauth_scopes)) [
  | inl taken ↦ absurd (ground arith)
  | inr free ↦ (free, ground arith)
]

-- The scope that was created, as a later transaction finds it.
create_new_scope-found :
    (w : World) (audit : OperatorAuditContext) (tx_now : ℕ) (row : OauthScopeRow) (db : Db)
    (dto : OauthScopeDto) (db' : Db)
    → create_new_scope w audit tx_now row db ≡ ok (dto, db')
    → get_scope_by_id db'.oauth_scopes row.id ≡ some row
unfolding create_new_scope get_scope_by_id
create_new_scope-found w audit tx_now row db dto db' h =
    let (u, db1, inserts, run) = bind-eq-ok (insert_scope row) _ db h in
    let (fresh, grown) = insert_scope-ok row db u db1 inserts in
    let (entry, db2, appends, ends) =
      bind-eq-ok (append_audit_entry w tx_now (scope_entry audit row)) _ db1 run in
    let (latest, last, same) = append_audit_entry-ok w tx_now (scope_entry audit row) db1 appends in
    let ended : db2 ≡ db' = cc in
    ap (λ (d : Db). find (has_scope_id row.id) d.oauth_scopes) (sym ended ∙ same)
    ∙ ap (λ (d : Db). find (has_scope_id row.id) d.oauth_scopes) grown
    ∙ find-append_fresh (has_scope_id row.id) db.oauth_scopes row fresh (eq_refl row.id)

passed :
    {A : Type 0} (test : Bool) (e : RailError) (x : Result A) (a : A)
    → (if test then err e else x) ≡ ok a
    → x ≡ ok a
passed true e x a h = absurd (cc)
passed false e x a h = h

create_oauth_scope-found :
    (w : World) (audit : OperatorAuditContext) (args : CreateScopeArgs) (between : Db → Db)
    (tx_now : ℕ) (db : Db) (dto : OauthScopeDto) (db' : Db)
    → create_oauth_scope w audit args between tx_now db ≡ ok (dto, db')
    → get_scope_by_id db'.oauth_scopes args.id ≡ some (scope_row tx_now args)
unfolding create_oauth_scope scope_row
create_oauth_scope-found w audit args between tx_now db dto db' h =
    create_new_scope-found w audit tx_now (scope_row tx_now args) (between db) dto db'
      (passed (is_some (get_scope_by_id db.oauth_scopes args.id)) _ _ (dto, db') h)

-- A scope for which a step-up token is asked, by the arguments that it is created with.
abbrev pub NeedsNoStepUp : CreateScopeArgs → Type 0
NeedsNoStepUp args =
    (args.elevation_friction ≢ some "high")
    × (args.category ≢ "write_money")
    × (args.category ≢ "write_identity")
    × (args.category ≢ "read_behavioural")

-- What the arguments of a scope bound: the lifetime, the amounts, and whether without step-up.
abbrev pub IsBounded : CreateScopeArgs → IssuanceDeps → IssueAuthorityArgs → AuthorityScope → Type 0
IsBounded args deps grant s =
    (grant.ttl_seconds ≤ (args.per_scope_max_ttl_seconds or_else 3600))
    × IsAtMost s.amount_limit_minor args.per_scope_amount_ceiling_minor
    × IsAtMost s.per_period_limit_minor args.per_scope_period_ceiling_minor
    × (NeedsNoStepUp args ⊎ StepUpVerified deps grant)

low_stakes :
    (tx_now : ℕ) (args : CreateScopeArgs)
    → (classify_scope (scope_row tx_now args)).is_high_stakes ≡ false
    → NeedsNoStepUp args
unfolding classify_scope scope_row
low_stakes tx_now args low = (
  λ high. ground (arith, low, ap (λ o. (o or_else default_elevation) == "high") high),
  λ money. ground (arith, low, ap (λ c. c == "write_money") money),
  λ identity. ground (arith, low, ap (λ c. c == "write_identity") identity),
  λ behaviour. ground (arith, low, ap (λ c. c == "read_behavioural") behaviour),
)

allowed-IsBounded :
    (tx_now : ℕ) (args : CreateScopeArgs) (deps : IssuanceDeps) (grant : IssueAuthorityArgs)
    (tables : ℕ → List OauthScopeRow) (reads : ℕ) (s : AuthorityScope)
    → ((n : ℕ) → n < reads → get_scope_by_id (tables n) args.id ≡ some (scope_row tx_now args))
    → s.scope_id ≡ args.id
    → IsAllowed deps grant tables reads s
    → IsBounded args deps grant s
unfolding scope_row
allowed-IsBounded tx_now args deps grant tables reads s found named
      (row, (n, below, read), active, ttl, amount, period, step) =
    let both : some row ≡ some (scope_row tx_now args) =
      sym read ∙ ap (get_scope_by_id (tables n)) named ∙ found n below in
    let same : row ≡ scope_row tx_now args = cc in
    let low = low_stakes tx_now args in
    (
      ground (arith, ttl, same),
      above-IsAtMost s.amount_limit_minor args.per_scope_amount_ceiling_minor (
          sym (
            ap (λ (r : OauthScopeRow). above s.amount_limit_minor r.per_scope_amount_ceiling_minor)
              same)
          ∙ amount),
      above-IsAtMost s.per_period_limit_minor args.per_scope_period_ceiling_minor (
          sym (
            ap
              (λ (r : OauthScopeRow).
                above s.per_period_limit_minor r.per_scope_period_ceiling_minor)
              same)
          ∙ period),
      elim step [
        | inl quiet ↦
            inl (
              low
                (sym (ap (λ (r : OauthScopeRow). (classify_scope r).is_high_stakes) same) ∙ quiet))
        | inr verified ↦ inr verified
      ],
    )

-- An operator has created a scope. Where the reads of scopes of a later issuance find its row as
-- it was created, each authority that the issuance returns with a scope of that name lives no
-- longer than the created scope's TTL allows (an hour where none was given), has no amount limit
-- and no period limit above the created scope's ceilings, and, where the created scope has high
-- friction or moves money, writes identity or reads behaviour, has had its step-up token verified
-- for the account.
pub create-issue_authority :
    (w : World) (audit : OperatorAuditContext) (args : CreateScopeArgs) (between : Db → Db)
    (tx_now : ℕ) (db : Db) (dto : OauthScopeDto) (db' : Db)
    → create_oauth_scope w audit args between tx_now db ≡ ok (dto, db')
    → (deps : IssuanceDeps) (context : AuthorityAuditContext) (grant : IssueAuthorityArgs)
      (others : ℕ → Db → Db) (now tx_later : ℕ) (start : Db) (answer : AuthorityDto) (db'' : Db)
    → ((n : ℕ)
        → n < length grant.scopes
        → get_scope_by_id (scope_tables others start n) args.id
          ≡ get_scope_by_id db'.oauth_scopes args.id)
    → issue_authority w deps context grant others now tx_later start ≡ ok (answer, db'')
    → (before : List AuthorityScope) (s : AuthorityScope) (after : List AuthorityScope)
    → grant.scopes ≡ before ++ s ∷ after
    → s.scope_id ≡ args.id
    → IsBounded args deps grant s
create-issue_authority w audit args between tx_now db dto db' created deps context grant others now
      tx_later start answer db'' kept issued before s after listed named =
    let (agent, all) =
      issue_authority-IsAllowed w deps context grant others now tx_later start answer db'' issued in
    let Allowed = IsAllowed deps grant (scope_tables others start) (length grant.scopes) in
    allowed-IsBounded tx_now args deps grant (scope_tables others start) (length grant.scopes) s
      (λ n below.
        kept n below ∙ create_oauth_scope-found w audit args between tx_now db dto db' created)
      named (All-at Allowed before s after (subst (All Allowed) listed all))
