-- ===== src/Actions/Dispatch/Usage.antt =====
-- What a dispatch spends of its authority.
use helpan_ai.Prelude.{
  ℕ, ◌+◌, String, some, List, ◌≡◌, sym, ap, ◌∙◌, ◌⊎◌, inl, inr, arith, eq_iff, find-admits,
  ◌or_else◌,
}
use mathlib.Core.Path.{subst}
use helpan_ai.Time.{period_window_key}
use helpan_ai.World.{World}
use helpan_ai.Store.{Db}
use helpan_ai.Store.Rows.{AuthorityScope, AuthorityUsageRow}
use helpan_ai.Store.Tx.{Result, Result-cases, ok, err}
use helpan_ai.Authorities.Types.{AuthorityDto}
use helpan_ai.Authorities.Repo.{
  get_authority_by_id, get_period_usage_minor, increment_authority_usage,
}
use helpan_ai.Authorities.Repo.Keys.{has_id}
use helpan_ai.Authorities.Repo.Usage.{get_period_usage_minor-increment}
use helpan_ai.Authorities.Validate.Laws.{AtMost, WithinLimits}
use helpan_ai.Actions.Types.{
  DispatchDeps, DispatchAuditContext, DispatchActionArgs, Clocks, ActionDto,
}
use helpan_ai.Actions.Dispatch.{
  authorise, prepare, settle, run_prepared, dispatch_action, input_of, draws,
}
use helpan_ai.Actions.Dispatch.Phases.{Prepared, phase_a}
use helpan_ai.Actions.Dispatch.PhaseA.{phase_a-ok}
use helpan_ai.Actions.Dispatch.PhaseC.{settle-usage}
use helpan_ai.Actions.Dispatch.Guard.{authorise-IsPermitted}

abbrev Usage : Type 0
Usage = Db → List AuthorityUsageRow

authorised_limit :
    (deps : DispatchDeps) (clocks : Clocks) (args : DispatchActionArgs) (db : Db) (jti : String)
    (authority : AuthorityDto) (scope : AuthorityScope) (amount : ℕ)
    → authorise deps clocks args db ≡ ok (jti, authority, scope)
    → args.amount_minor ≡ some amount
    → period_window_key scope.period clocks.validated_at ≡ period_window_key scope.period clocks.now
    → AtMost
        (get_period_usage_minor db.authority_usage jti scope.scope_id
            (period_window_key scope.period clocks.now)
          + amount)
        scope.per_period_limit_minor
unfolding get_authority_by_id
authorised_limit deps clocks args db jti authority scope amount accepted priced same_window =
    let (row, (_, found, _, (_, _, _, covering, covers, within)), _, covered) =
      authorise-IsPermitted deps clocks args db jti authority scope accepted in
    let row_id : row.id ≡ jti =
      (eq_iff row.id jti).0 (find-admits (has_id jti) db.delegated_authorities row found) in
    let same_scope : covering ≡ scope = cc (covers, covered) in
    let v = deps.verify args.delegated_authority_jwt in
    let u = db.authority_usage in
    let t = clocks.validated_at in
    let w1 = subst (λ i. WithinLimits v u t i covering args.amount_minor) row_id within in
    let w2 = subst (λ s. WithinLimits v u t jti s args.amount_minor) same_scope w1 in
    let w3 : WithinLimits v u t jti scope (some amount) =
      subst (λ a. WithinLimits v u t jti scope a) priced w2 in
    subst
      (λ window.
        AtMost (get_period_usage_minor u jti scope.scope_id window + amount)
          scope.per_period_limit_minor)
      same_window w3.1

module _ (w : World) (deps : DispatchDeps) (clocks : Clocks) (meanwhile between : Db → Db)
    (audit : DispatchAuditContext) (args : DispatchActionArgs)
    (before : (d : Db) → (meanwhile d).authority_usage ≡ d.authority_usage)
    (apart : (d : Db) → (between d).authority_usage ≡ d.authority_usage) where
  run_prepared-usage :
      (p : Prepared) (db : Db)
      → ((run_prepared w deps clocks between audit args p db).1.authority_usage
          ≡ db.authority_usage)
        ⊎ ((run_prepared w deps clocks between audit args p db).1.authority_usage
            ≡ increment_authority_usage clocks.tx_a p.jti p.scope_id p.period_window
                (args.amount_minor or_else 0)
                db.authority_usage)
  unfolding run_prepared
  run_prepared-usage p db = elim (Result-cases (phase_a w clocks audit args p db)) [
    | inr (e, failed) ↦ inl (ground arith)
    | inl ((event_id, db_a), done) ↦
        let (free, latest, newest, made) = phase_a-ok w clocks audit args p db event_id db_a done in
        inr (
          ap (λ r. (settled p r).1.authority_usage) done
          ∙ settle-usage w clocks audit args p (deps.dispatch (input_of audit args p))
              (between db_a)
          ∙ apart db_a
          ∙ ap (λ (d : Db). d.authority_usage) made)
  ]
    where
      settled : Prepared → Result (String × Db) → Result ActionDto × Db
      settled p r = elim r [
        | err e ↦ (err e, db)
        | ok (_, d) ↦
            settle w clocks audit args p (deps.dispatch (input_of audit args p)) (between d)
      ]

  dispatch_action-usage :
      (db : Db) (jti : String) (authority : AuthorityDto) (scope : AuthorityScope)
      → authorise deps clocks args db ≡ ok (jti, authority, scope)
      → ((dispatch_action w deps clocks meanwhile between audit args db).1.authority_usage
          ≡ db.authority_usage)
        ⊎ ((dispatch_action w deps clocks meanwhile between audit args db).1.authority_usage
            ≡ increment_authority_usage clocks.tx_a jti scope.scope_id
                (period_window_key scope.period clocks.now)
                (args.amount_minor or_else 0)
                db.authority_usage)
  unfolding dispatch_action prepare
  dispatch_action-usage db jti authority scope accepted =
      let start = record db { minted = db.minted + draws args.business_op_id } in
      let rest =
        run_prepared-usage (prepare w deps clocks audit args jti authority scope db.minted)
          (meanwhile start) in
      ground (arith, rest, before start)

  -- Where no other transaction touches the usage meanwhile and the period's window does not turn
  -- between validation and phase A, a dispatch of an amount that was authorised either leaves the
  -- usage as it was or adds the amount to the window's total, and the total is within the limit.
  pub dispatch_action-within_limit :
      (db : Db) (jti : String) (authority : AuthorityDto) (scope : AuthorityScope) (amount : ℕ)
      → authorise deps clocks args db ≡ ok (jti, authority, scope)
      → args.amount_minor ≡ some amount
      → period_window_key scope.period clocks.validated_at
        ≡ period_window_key scope.period clocks.now
      → ((dispatch_action w deps clocks meanwhile between audit args db).1.authority_usage
          ≡ db.authority_usage)
        ⊎ ((get_period_usage_minor
                (dispatch_action w deps clocks meanwhile between audit args db).1.authority_usage
                jti
                scope.scope_id
                (period_window_key scope.period clocks.now)
              ≡ get_period_usage_minor db.authority_usage jti scope.scope_id
                  (period_window_key scope.period clocks.now)
                + amount)
            × AtMost
                (get_period_usage_minor
                  (dispatch_action w deps clocks meanwhile between audit args db).1.authority_usage
                  jti
                  scope.scope_id
                  (period_window_key scope.period clocks.now))
                scope.per_period_limit_minor)
  dispatch_action-within_limit db jti authority scope amount accepted priced same_window =
      let window = period_window_key scope.period clocks.now in
      elim (dispatch_action-usage db jti authority scope accepted) [
        | inl unchanged ↦ inl unchanged
        | inr grown ↦
            let total : get_period_usage_minor
                  (dispatch_action w deps clocks meanwhile between audit args db).1.authority_usage
                  jti scope.scope_id window
                ≡ get_period_usage_minor db.authority_usage jti scope.scope_id window + amount =
              ap (λ u. get_period_usage_minor u jti scope.scope_id window) grown
              ∙ get_period_usage_minor-increment clocks.tx_a jti scope.scope_id window
                  (args.amount_minor or_else 0) db.authority_usage
              ∙ ap
                  (λ a.
                    get_period_usage_minor db.authority_usage jti scope.scope_id window
                    + (a or_else 0))
                  priced in
            inr (
              total,
              subst (λ n. AtMost n scope.per_period_limit_minor) (sym total)
                  (authorised_limit deps clocks args db jti authority scope amount accepted priced
                    same_window),
            )
      ]
