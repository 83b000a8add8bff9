-- ===== src/Operators/Uniqueness.antt =====
-- One safety policy for each app, whose app never changes.
use helpan_ai.Prelude.{
  ℕ, String, Bool, true, false, Option, none, some, Option-cases, List, [], ◌∷◌, ◌++◌, ◌≡◌, refl,
  sym, ap, ◌∙◌, arith, any, find, find-append, find-append_fresh, find-update_where, update_where,
  ◌==◌, eq_iff, eq_refl, Bool-cases, inl, inr, if◌then◌else◌,
}
use mathlib.Core.Path.{subst}
use helpan_ai.World.{World}
use helpan_ai.Store.{Db}
use helpan_ai.Store.Keyed.{HasUniqueKeys, append-HasUniqueKeys, update_where-HasUniqueKeys}
use helpan_ai.Store.Policies.{SafetyPolicyRow}
use helpan_ai.Store.Tx.{ok, coded, ◌>>◌, pure, throw, bind-eq-ok, require-bind-eq-ok}
use helpan_ai.Audit.{append_audit_entry}
use helpan_ai.Audit.Hash.{AuditEntry}
use helpan_ai.Audit.Chain.{append_audit_entry-ok}
use helpan_ai.Operators.Audited.{OperatorAuditContext}
use helpan_ai.Operators.Policies.{
  PutSafetyPolicyArgs, PutResult, has_policy_id, has_policy_app, policy_row, policy_conflicts,
  insert_safety_policy, replaced_policy, write_policy, create_policy, replace_row, replace_policy,
  put_existing, put_safety_policy, get_safety_policy_by_id, get_safety_policy_by_app_id,
}

abbrev app_or_none : Option SafetyPolicyRow → Option String
app_or_none none = none
app_or_none (some row) = some row.app_id

-- The app of the policy with an id.
abbrev pub app_of : List SafetyPolicyRow → String → Option String
app_of rows id = app_or_none (find (has_policy_id id) rows)

abbrev pub IsOnePerApp : List SafetyPolicyRow → Type 0
IsOnePerApp rows =
    HasUniqueKeys (λ (r : SafetyPolicyRow). r.id) rows
    × HasUniqueKeys (λ (r : SafetyPolicyRow). r.app_id) rows

-- Every policy is still there, with its app.
abbrev pub KeepsApps : List SafetyPolicyRow → List SafetyPolicyRow → Type 0
KeepsApps rows rows' = (id app : String) → app_of rows id ≡ some app → app_of rows' id ≡ some app

abbrev IsPut : String → String → List SafetyPolicyRow → List SafetyPolicyRow → Type 0
IsPut id app rows rows' = IsOnePerApp rows' × KeepsApps rows rows' × (app_of rows' id ≡ some app)

found_app :
    (rows : List SafetyPolicyRow) (id app : String)
    → app_of rows id ≡ some app
    → (row : SafetyPolicyRow) × (find (has_policy_id id) rows ≡ some row) × (row.app_id ≡ app)
found_app rows id app h = elim (Option-cases (find (has_policy_id id) rows)) [
  | inl missing ↦ absurd (ground (arith, sym (ap app_or_none missing) ∙ h))
  | inr (row, found) ↦
      let same : some row.app_id ≡ some app = sym (ap app_or_none found) ∙ h in
      (row, found, ground arith)
]

conflict_free :
    (rows : List SafetyPolicyRow) (new : SafetyPolicyRow)
    → any (policy_conflicts new) rows ≡ false
    → (any (has_policy_id new.id) rows ≡ false) × (any (has_policy_app new.app_id) rows ≡ false)
conflict_free [] new h = (refl, refl)
conflict_free (x ∷ rows) new h =
    let (ids, apps) = conflict_free rows new (ground arith) in
    (ground (arith, ids), ground (arith, apps))

append-IsPut :
    (rows : List SafetyPolicyRow) (new : SafetyPolicyRow)
    → any (policy_conflicts new) rows ≡ false
    → IsOnePerApp rows
    → IsPut new.id new.app_id rows (rows ++ new ∷ [])
append-IsPut rows new free (ids, apps) =
    let (no_id, no_app) = conflict_free rows new free in
    (
      (
        append-HasUniqueKeys (λ (r : SafetyPolicyRow). r.id) new rows no_id ids,
        append-HasUniqueKeys (λ (r : SafetyPolicyRow). r.app_id) new rows no_app apps,
      ),
      λ id app h.
          let (row, found, same) = found_app rows id app h in
          ap app_or_none (find-append (has_policy_id id) rows (new ∷ []) row found)
          ∙ ap (λ a. some a) same,
      ap app_or_none (find-append_fresh (has_policy_id new.id) rows new no_id (eq_refl new.id)),
    )

module _ (f : SafetyPolicyRow → SafetyPolicyRow)
    (keeps_id : (r : SafetyPolicyRow) → (f r).id ≡ r.id)
    (keeps_app : (r : SafetyPolicyRow) → (f r).app_id ≡ r.app_id) where
  kept_app :
      (test : Bool) (row : SafetyPolicyRow) → (if test then f row else row).app_id ≡ row.app_id
  kept_app true row = keeps_app row
  kept_app false row = refl

  update_where-IsPut :
      (rows : List SafetyPolicyRow) (id : String) (existing : SafetyPolicyRow)
      → find (has_policy_id id) rows ≡ some existing
      → IsOnePerApp rows
      → IsPut id existing.app_id rows (update_where (has_policy_id id) f rows)
  update_where-IsPut rows id existing found (ids, apps) =
      let kept : KeepsApps rows (update_where (has_policy_id id) f rows) = λ j app h.
        let (row, reads, same) = found_app rows j app h in
        ap app_or_none (
          find-update_where (has_policy_id j) (has_policy_id id) f rows row
            (λ x. ap (λ k. k == j) (keeps_id x)) reads)
        ∙ ap (λ a. some a) (kept_app (has_policy_id id row) row ∙ same) in
      (
        (
          update_where-HasUniqueKeys (λ (r : SafetyPolicyRow). r.id) (has_policy_id id) f rows
              keeps_id ids,
          update_where-HasUniqueKeys (λ (r : SafetyPolicyRow). r.app_id) (has_policy_id id) f rows
              keeps_app apps,
        ),
        kept,
        kept id existing.app_id (ap app_or_none found),
      )

append-policies :
    {A : Type 0} (w : World) (tx_now : ℕ) (e : AuditEntry) (a : A) (db : Db) (b : A) (db' : Db)
    → (append_audit_entry w tx_now e >> pure a) db ≡ ok (b, db')
    → db'.safety_policies ≡ db.safety_policies
append-policies w tx_now e a db b db' h =
    let (entry, db1, appends, ends) =
      bind-eq-ok (append_audit_entry w tx_now e) (λ _. pure a) db h in
    let (latest, found, same) = append_audit_entry-ok w tx_now e db appends in
    let last : db1 ≡ db' = cc in ap (λ (d : Db). d.safety_policies) (sym last ∙ same)

insert_safety_policy-ok :
    (new : SafetyPolicyRow) (db : Db) (u : Unit {0}) (db' : Db)
    → insert_safety_policy new db ≡ ok (u, db')
    → (any (policy_conflicts new) db.safety_policies ≡ false)
      × (db' ≡ record db { safety_policies = db.safety_policies ++ new ∷ [] })
unfolding insert_safety_policy
insert_safety_policy-ok new db u db' h =
    elim (Bool-cases (any (policy_conflicts new) db.safety_policies)) [
      | inl taken ↦ absurd (ground arith)
      | inr free ↦ (free, ground arith)
    ]

module _ (w : World) (audit : OperatorAuditContext) (args : PutSafetyPolicyArgs) (now tx_now : ℕ)
    (db : Db) (r : PutResult) (db' : Db) (one : IsOnePerApp db.safety_policies) where
  abbrev IsWritten : Type 0
  IsWritten = IsPut args.id args.app_id db.safety_policies db'.safety_policies

  create_policy-IsWritten :
      (other : Option SafetyPolicyRow)
      → create_policy w audit args tx_now other db ≡ ok (r, db')
      → IsWritten
  unfolding policy_row
  create_policy-IsWritten (some other) h = absurd (cc)
  create_policy-IsWritten none h =
      let new = policy_row w tx_now args in
      let (u, db1, inserts, h1) = bind-eq-ok (insert_safety_policy new) _ db h in
      let (free, same) = insert_safety_policy-ok new db u db1 inserts in
      let kept = append-policies w tx_now _ _ db1 r db' h1 in
      subst (IsPut args.id args.app_id db.safety_policies)
        (sym (kept ∙ ap (λ (d : Db). d.safety_policies) same))
        (append-IsPut db.safety_policies new free one)

  replace_policy-IsWritten :
      (existing : SafetyPolicyRow)
      → find (has_policy_id args.id) db.safety_policies ≡ some existing
      → replace_policy w audit args now tx_now existing db ≡ ok (r, db')
      → IsWritten
  unfolding replaced_policy
  replace_policy-IsWritten existing found h = elim (Bool-cases (existing.app_id == args.app_id)) [
    | inr other ↦ absurd (ground arith)
    | inl same ↦
        let run : replace_row w audit args now tx_now existing db ≡ ok (r, db') =
          ap
            (λ b.
              (if b
                  then replace_row w audit args now tx_now existing
                  else throw (coded "SAFETY_POLICY_APP_ID_FROZEN" 409 (some "app_id")))
                db)
            (sym same)
          ∙ h in
        let f = replaced_policy w now args in
        let kept = append-policies w tx_now _ _ (write_policy f args.id db) r db' run in
        let put =
          update_where-IsPut f (λ x. refl) (λ x. refl) db.safety_policies args.id existing found
            one in
        subst (λ app. IsPut args.id app db.safety_policies db'.safety_policies)
          ((eq_iff existing.app_id args.app_id).0 same)
          (subst (IsPut args.id existing.app_id db.safety_policies) (sym kept) put)
  ]

  put_existing-IsWritten :
      (existing : Option SafetyPolicyRow)
      → find (has_policy_id args.id) db.safety_policies ≡ existing
      → put_existing w audit args now tx_now existing db ≡ ok (r, db')
      → IsWritten
  put_existing-IsWritten none found h =
      create_policy-IsWritten (get_safety_policy_by_app_id db.safety_policies args.app_id) h
  put_existing-IsWritten (some existing) found h = replace_policy-IsWritten existing found h

  -- Where the policies have unique ids and no two of them share an app, a put that returned leaves
  -- them so; each policy that was there is still there under its id and for its app, and the
  -- policy with the path's id is one for the app of the arguments.
  pub put_safety_policy-IsOnePerApp :
      (path_id : String)
      → put_safety_policy w audit path_id args now tx_now db ≡ ok (r, db')
      → IsOnePerApp db'.safety_policies
        × KeepsApps db.safety_policies db'.safety_policies
        × (app_of db'.safety_policies path_id ≡ some args.app_id)
  unfolding put_safety_policy get_safety_policy_by_id
  put_safety_policy-IsOnePerApp path_id h =
      let (same, run) =
        require-bind-eq-ok (args.id == path_id) (coded "REQ_INVALID" 400 (some "id")) _ db h in
      let path : args.id ≡ path_id = (eq_iff args.id path_id).0 same in
      let (all, keeps, app) =
        put_existing-IsWritten (find (has_policy_id path_id) db.safety_policies)
          (ap (λ i. find (has_policy_id i) db.safety_policies) path) run in
      (all, keeps, ap (app_of db'.safety_policies) (sym path) ∙ app)
