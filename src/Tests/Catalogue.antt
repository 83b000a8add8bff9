-- ===== src/Tests/Catalogue.antt =====
-- Scopes that an operator creates, and an authority with one.
use helpan_ai.Prelude.{ap, ℕ, zero, suc, true, String, none, some, List, [], ◌∷◌, ◌≡◌, refl}
use helpan_ai.Store.{Db}
use helpan_ai.Store.Tx.{ok, err, coded}
use helpan_ai.Authorities.Issue.{moment, issue_authority}
use helpan_ai.Authorities.Conditions.{IssueAuthorityArgs}
use helpan_ai.Authorities.Types.{AuthorityDto}
use helpan_ai.Tests.Grants.{value_or}
use helpan_ai.Operators.Ceilings.{IsBounded, create-issue_authority}
use helpan_ai.Operators.Catalogue.{
  CreateScopeArgs, OauthScopeDto, to_scope_dto, create_oauth_scope, list_oauth_scopes,
}
use helpan_ai.Tests.Fixtures.{
  plain_world, start_db, transfer_row, issuance, console, undisturbed, grant, granted_at, transfer,
}
use helpan_ai.Authorities.Repo.{get_agent_by_id}
use helpan_ai.Audit.{audit_row, insert_row, append_audit_entry}
use helpan_ai.Scopes.{get_scope_by_id}
use helpan_ai.Scopes.{classify_scope, tightest_ttl_seconds, requires_step_up, get_scope_by_id}
use helpan_ai.Audit.{append_audit_entry}
use helpan_ai.Outbox.Enqueue.{enqueue_outbox_entry}
use helpan_ai.Authorities.Repo.{get_agent_by_id, insert_authority}
use helpan_ai.Authorities.Conditions.{check_classified, class_by_id, check_step_up}
use helpan_ai.Authorities.Issue.{sign_and_persist, persist_issued}
use helpan_ai.Tests.Operators.{operator, returned}

abbrev wallet : CreateScopeArgs
wallet = record {
  id = "pay.wallet";
  name = "Wallet";
  description = "Reads balances";
  rail = "kipkiren_pay";
  category = "read_aggregate";
  default_grantable = true;
  elevation_friction = none;
  per_scope_amount_ceiling_minor = none;
  per_scope_period_ceiling_minor = none;
  per_scope_max_ttl_seconds = none;
}

abbrev created : OauthScopeDto × Db
created =
    returned (to_scope_dto transfer_row)
      (create_oauth_scope plain_world operator wallet (λ db. db) 899 start_db)

created_returns :
    create_oauth_scope plain_world operator wallet (λ db. db) 899 start_db
    ≡ ok (created.0, created.1)
unfolding create_oauth_scope get_scope_by_id append_audit_entry
created_returns = refl

created_ttl : created.0.per_scope_max_ttl_seconds ≡ 3600
unfolding create_oauth_scope get_scope_by_id append_audit_entry
created_ttl = refl

abbrev scope_ids : List OauthScopeDto → List String
scope_ids [] = []
scope_ids (x ∷ xs) = x.id ∷ scope_ids xs

listed_by_rail :
    scope_ids (list_oauth_scopes created.1 (some "kipkiren_pay"))
    ≡ "pay.transfer" ∷ "pay.wallet" ∷ []
unfolding list_oauth_scopes create_oauth_scope get_scope_by_id append_audit_entry
listed_by_rail = refl

exists_already :
    create_oauth_scope plain_world operator wallet (λ db. db) 900 created.1
    ≡ err (coded "OAUTH_SCOPE_EXISTS" 409 (some "id"))
unfolding create_oauth_scope get_scope_by_id append_audit_entry
exists_already = refl

abbrev pays : CreateScopeArgs
pays = record wallet {
  id = "pay.send";
  elevation_friction = some "high";
  per_scope_amount_ceiling_minor = some 500;
  per_scope_max_ttl_seconds = some 900;
}

abbrev with_pays : OauthScopeDto × Db
with_pays =
    returned (to_scope_dto transfer_row)
      (create_oauth_scope plain_world operator pays (λ db. db) 899 start_db)

with_pays_returns :
    create_oauth_scope plain_world operator pays (λ db. db) 899 start_db
    ≡ ok (with_pays.0, with_pays.1)
unfolding create_oauth_scope get_scope_by_id append_audit_entry
with_pays_returns = refl

abbrev sends : IssueAuthorityArgs
sends = record grant { scopes = record transfer { scope_id = "pay.send" } ∷ [] }

abbrev sent : AuthorityDto × Db
sent = value_or (
    issue_authority plain_world issuance console sends undisturbed granted_at granted_at
      with_pays.1)

sent_returns :
    issue_authority plain_world issuance console sends undisturbed granted_at granted_at with_pays.1
    ≡ ok (sent.0, sent.1)
unfolding issue_authority get_agent_by_id get_scope_by_id check_classified tightest_ttl_seconds
    classify_scope class_by_id check_step_up requires_step_up sign_and_persist persist_issued
    insert_authority append_audit_entry enqueue_outbox_entry create_oauth_scope insert_row audit_row
sent_returns = refl

undisturbed-moment : (n : ℕ) (db : Db) → moment undisturbed n db ≡ db
undisturbed-moment zero db = refl
undisturbed-moment (suc n) db = undisturbed-moment n db

create-issue_authority_example :
    IsBounded pays issuance sends (record transfer { scope_id = "pay.send" })
create-issue_authority_example =
    create-issue_authority plain_world operator pays (λ db. db) 899 start_db with_pays.0 with_pays.1
      with_pays_returns issuance console sends undisturbed granted_at granted_at with_pays.1 sent.0
      sent.1
      (λ n below.
        ap (λ (d : Db). get_scope_by_id d.oauth_scopes "pay.send")
          (undisturbed-moment n with_pays.1))
      sent_returns [] (record transfer { scope_id = "pay.send" }) [] refl refl
