-- ===== src/Workers/Cascade.antt =====
-- src/workers/cascadeRevocation/cascade.ts.
pub mod Laws
pub mod Effects
pub mod Targets
pub mod Redelivery
use Prim.Native.String.{compare, ◌++◌ as concat}
use text.Mathlib.Text.{is_lt}
use helpan_ai.Prelude.{
  ℕ, ◌+◌, String, Bool, true, false, ◌&&◌, ◌||◌, Option, none, some, List, [], ◌∷◌, ◌==◌, ltb,
  nat_eq, any, select, if◌then◌else◌,
}
use helpan_ai.Json.{obj, str, field, end, with_text}
use helpan_ai.World.{World}
use helpan_ai.Store.{Db}
use helpan_ai.Store.Rows.{AuthorityScope, OauthScopeRow, DelegatedAuthorityRow, RevocationReason}
use helpan_ai.Store.Tx.{Tx, ok, ◌>>=◌, ◌>>◌, pure}
use helpan_ai.Scopes.{classify_scope, get_scope_by_id}
use helpan_ai.Audit.{append_audit_entry}
use helpan_ai.Audit.Hash.{AuditEntry, blank_entry}
use helpan_ai.Outbox.Enqueue.{enqueue_outbox_entry}
use helpan_ai.Authorities.Types.{reason_text}
use helpan_ai.Authorities.Claims.{truthy_text}
use helpan_ai.Authorities.Repo.{revoke_active_authority, is_active_of_account}
use helpan_ai.Authorities.Revoke.{revoked_event}

-- TIER_RANK; the keys that a plain object inherits are left out.
abbrev tier_rank : String → Option ℕ
tier_rank tier =
    if tier == "tier_0"
    then some 0
    else if tier == "tier_1"
    then some 1
    else if tier == "tier_2"
    then some 2
    else none

abbrev below : Option ℕ → Option ℕ → Bool
below (some to) (some from) = ltb to from
below _ _ = false

abbrev rank_of : Option String → Option ℕ
rank_of none = none
rank_of (some tier) = tier_rank tier

unfoldable pub is_tier_downgrade : Option String → Option String → Bool
is_tier_downgrade from to = below (rank_of (truthy_text to)) (rank_of (truthy_text from))

abbrev high_stakes_row : Option OauthScopeRow → Bool
high_stakes_row none = false
high_stakes_row (some row) = (classify_scope row).is_high_stakes

unfoldable pub is_high_stakes_authority : List OauthScopeRow → DelegatedAuthorityRow → Bool
is_high_stakes_authority scopes row =
    any (λ (s : AuthorityScope). high_stakes_row (get_scope_by_id scopes s.scope_id)) row.scopes

-- ORDER BY issued_at DESC, id DESC.
abbrev newer : DelegatedAuthorityRow → DelegatedAuthorityRow → Bool
newer a b =
    ltb b.issued_at a.issued_at || (nat_eq a.issued_at b.issued_at && is_lt (compare b.id a.id))

unfoldable pub insert_newer :
    DelegatedAuthorityRow → List DelegatedAuthorityRow → List DelegatedAuthorityRow
insert_newer row [] = row ∷ []
insert_newer row (x ∷ xs) = elim (newer row x) [
  | true ↦ row ∷ x ∷ xs
  | false ↦ x ∷ insert_newer row xs
]

unfoldable pub sort_newest : List DelegatedAuthorityRow → List DelegatedAuthorityRow
sort_newest [] = []
sort_newest (x ∷ xs) = insert_newer x (sort_newest xs)

-- src/modules/authorities/repo.ts.
unfoldable pub list_active_authorities_for_account :
    List DelegatedAuthorityRow → String → List DelegatedAuthorityRow
unfolding sort_newest insert_newer
list_active_authorities_for_account rows account =
    sort_newest (select (is_active_of_account account) rows)

pub record AccountEvent : Type 0 where
  pub event_type : Option String
  pub account_uuid : Option String
  pub from_tier : Option String
  pub to_tier : Option String
  pub traceparent : Option String

pub data CascadeTrigger : Type 0 where
  account_suspended kyc_downgraded : CascadeTrigger
  ignored : CascadeTrigger

pub record CascadeResult : Type 0 where
  pub trigger : CascadeTrigger
  pub account_uuid : Option String
  pub revoked : ℕ

abbrev trigger_of_type : String → Option String → Option String → CascadeTrigger
trigger_of_type event_type from to =
    if event_type == "ACCOUNT_SUSPENDED"
    then account_suspended
    else if event_type == "TIER_CHANGED" && is_tier_downgrade from to
    then kyc_downgraded
    else ignored

abbrev chosen : CascadeTrigger → String → String → Option (CascadeTrigger × String × String)
chosen ignored account event_type = none
chosen trigger account event_type = some (trigger, account, event_type)

abbrev triggered :
    AccountEvent → Option String → Option String → Option (CascadeTrigger × String × String)
triggered event (some event_type) (some account) =
    chosen (trigger_of_type event_type event.from_tier event.to_tier) account event_type
triggered event _ _ = none

-- The trigger, with the account and the event's type; `none` is an event that is ignored.
unfoldable pub trigger_of : AccountEvent → Option (CascadeTrigger × String × String)
unfolding is_tier_downgrade
trigger_of event = triggered event event.event_type (truthy_text event.account_uuid)

abbrev pub reason_of : CascadeTrigger → RevocationReason
reason_of kyc_downgraded = RevocationReason.kyc_downgraded
reason_of _ = RevocationReason.account_suspended

-- The authorities that a trigger revokes: those of high stakes for a downgrade, else all.
unfoldable pub targets_of : Db → CascadeTrigger → String → List DelegatedAuthorityRow
unfolding list_active_authorities_for_account is_high_stakes_authority
targets_of db kyc_downgraded account =
    select (is_high_stakes_authority db.oauth_scopes)
      (list_active_authorities_for_account db.delegated_authorities account)
targets_of db _ account = list_active_authorities_for_account db.delegated_authorities account

unfoldable pub cascade_entry :
    RevocationReason → String → String → String → Option String → DelegatedAuthorityRow → AuditEntry
cascade_entry reason account event_type request_id traceparent updated = record blank_entry {
  actor_type = "system";
  actor_id = "system:cascade-revocation";
  account_uuid = some account;
  action = "authority.revoke";
  resource_type = some "delegated_authority";
  resource_id = some updated.id;
  agent_id = some updated.agent_id;
  delegated_authority_jti = some updated.id;
  request_id = request_id;
  traceparent = truthy_text traceparent;
  outcome = "success";
  initiated_by = some "system";
  detail = some (
      obj (
        field "reason" (str (reason_text reason)) (
          field "trigger_event" (str event_type)
            (with_text "traceparent" (truthy_text traceparent) end))));
}

-- What the loop knows of its event.
pub record Cascade : Type 0 where
  pub reason : RevocationReason
  pub account : String
  pub event_type : String
  pub request_id : String
  pub traceparent : Option String
  pub now : ℕ
  pub tx_now : ℕ

-- A row that another transaction has revoked is passed over.
unfoldable pub settle_target : World → Cascade → Option DelegatedAuthorityRow → Tx Db ℕ
unfolding cascade_entry revoked_event
settle_target w c none = pure 0
settle_target w c (some updated) = do
  append_audit_entry w c.tx_now
      (cascade_entry c.reason c.account c.event_type c.request_id c.traceparent updated)
  enqueue_outbox_entry w c.tx_now (revoked_event c.reason c.traceparent c.now updated)
  pure 1

unfoldable pub revoke_targets : World → Cascade → List DelegatedAuthorityRow → Tx Db ℕ
unfolding settle_target
revoke_targets w c [] = pure 0
revoke_targets w c (row ∷ rows) =
    revoke_active_authority row.id (record {
      reason = c.reason;
      detail = some (concat "cascade:" c.event_type);
      revoked_at = c.now;
    })
    >>= (λ found.
        settle_target w c found >>= (λ n. revoke_targets w c rows >>= (λ m. pure (n + m))))

abbrev result : CascadeTrigger → String → ℕ → CascadeResult
result trigger account revoked = record {
  trigger = trigger;
  account_uuid = some account;
  revoked = revoked;
}

abbrev pub cascade_of : AccountEvent → CascadeTrigger → String → String → String → ℕ → ℕ → Cascade
cascade_of event trigger account event_type request_id now tx_now = record {
  reason = reason_of trigger;
  account = account;
  event_type = event_type;
  request_id = request_id;
  traceparent = event.traceparent;
  now = now;
  tx_now = tx_now;
}

-- No transaction is opened where there is nothing to revoke.
abbrev run_cascade :
    World → Cascade → CascadeTrigger → List DelegatedAuthorityRow → Tx Db CascadeResult
run_cascade w c trigger [] db = ok (result trigger c.account 0, db)
run_cascade w c trigger (t ∷ ts) db =
    (revoke_targets w c (t ∷ ts) >>= (λ n. pure (result trigger c.account n))) db

-- The targets are read before the transaction; `between` is what others do in that time.
unfoldable pub handle_account_event :
    World → (Db → Db) → AccountEvent → String → ℕ → ℕ → Tx Db CascadeResult
unfolding trigger_of revoke_targets targets_of
handle_account_event w between event request_id now tx_now db = elim (trigger_of event) [
  | none ↦ ok (record { trigger = ignored; account_uuid = event.account_uuid; revoked = 0 }, db)
  | some (trigger, account, event_type) ↦
      run_cascade w (cascade_of event trigger account event_type request_id now tx_now) trigger
        (targets_of db trigger account) (between db)
]
