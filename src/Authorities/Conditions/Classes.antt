-- ===== src/Authorities/Conditions/Classes.antt =====
-- The classifications of the scopes that `issueAuthority` resolves, and how it looks one up.
use helpan_ai.Prelude.{
  ℕ, suc, ◌<◌, ◌≤◌, length, All-map, String, Bool, true, false, Option, none, some, List, [], ◌∷◌,
  ◌≡◌, refl, ap, ◌∙◌, inl, inr, arith, All, any, find-admits, ◌==◌, eq_iff, Bool-cases,
  Option-cases,
}
use mathlib.Core.Path.{subst}
use helpan_ai.Store.Rows.{OauthScopeRow, AuthorityScope, scope_is_active}
use helpan_ai.Store.Tx.{Result, ok, err}
use helpan_ai.Scopes.{ScopeClassification, classify_scope, get_scope_by_id}
use helpan_ai.Scopes.Limits.{TtlWithin}
use helpan_ai.Authorities.Conditions.{ResolvedScopes, resolved, resolve_scopes, class_by_id}

-- One of the `reads` reads found the row.
abbrev pub IsRead : (ℕ → List OauthScopeRow) → ℕ → String → OauthScopeRow → Type 0
IsRead tables reads id row = (n : ℕ) × (n < reads) × (get_scope_by_id (tables n) id ≡ some row)

-- A classification that was made from an active row of its own id.
abbrev pub FromActiveRow : (ℕ → List OauthScopeRow) → ℕ → ScopeClassification → Type 0
FromActiveRow tables reads c =
    (row : OauthScopeRow) × IsRead tables reads c.scope_id row
    × (scope_is_active row ≡ true)
    × (c ≡ classify_scope row)

get_scope_by_id-id :
    (rows : List OauthScopeRow) (id : String) (row : OauthScopeRow)
    → get_scope_by_id rows id ≡ some row
    → row.id ≡ id
unfolding get_scope_by_id
get_scope_by_id-id rows id row h = (eq_iff row.id id).0 (find-admits (λ r. r.id == id) rows row h)

resolved-FromActiveRow :
    (tables : ℕ → List OauthScopeRow) (k : ℕ) (s : AuthorityScope) (found : Option OauthScopeRow)
    (rest : Result ResolvedScopes) (cs : List ScopeClassification) (rails : List (String × String))
    → get_scope_by_id (tables 0) s.scope_id ≡ found
    → resolved s found rest ≡ ok (cs, rails)
    → (c : ScopeClassification) × (tail : List ScopeClassification) × (cs ≡ c ∷ tail)
      × (rest ≡ ok (tail, rails))
      × FromActiveRow tables (suc k) c
unfolding classify_scope
resolved-FromActiveRow tables k s none rest cs rails f h = absurd (cc)
resolved-FromActiveRow tables k s (some row) (err e) cs rails f h =
    elim (Bool-cases (scope_is_active row)) [
      | inl a ↦ absurd (ground arith)
      | inr i ↦ absurd (ground arith)
    ]
resolved-FromActiveRow tables k s (some row) (ok (tail, rails')) cs rails f h =
    elim (Bool-cases (scope_is_active row)) [
      | inl active ↦
          let same = get_scope_by_id-id (tables 0) s.scope_id row f in
          (
            classify_scope row,
            tail,
            ground arith,
            ground arith,
            (row, (0, omega arith, ap (get_scope_by_id (tables 0)) same ∙ f), active, refl),
          )
      | inr inactive ↦ absurd (ground arith)
    ]

pub resolve_scopes-FromActiveRow :
    (tables : ℕ → List OauthScopeRow) (scopes : List AuthorityScope)
    (rails : List (String × String)) (cs : List ScopeClassification)
    (rails' : List (String × String))
    → resolve_scopes tables rails scopes ≡ ok (cs, rails')
    → All (FromActiveRow tables (length scopes)) cs
unfolding resolve_scopes
resolve_scopes-FromActiveRow tables [] rails cs rails' h =
    let e : [] ≡ cs = ground arith in rw (← e) tt
resolve_scopes-FromActiveRow tables (s ∷ scopes) rails cs rails' h =
    let (c, tail, e, rest, from) =
      resolved-FromActiveRow tables (length scopes) s _ _ cs rails' refl h in
    let later = resolve_scopes-FromActiveRow (λ n. tables (suc n)) scopes _ tail rails' rest in
    rw e (
      from,
      All-map (FromActiveRow (λ n. tables (suc n)) (length scopes))
          (FromActiveRow tables (suc (length scopes))) tail
          (λ d (row, (n, below, reads), active, made).
            (row, (suc n, omega (arith, below), reads), active, made))
          later,
    )

pub class_by_id-All {κ} :
    (P : ScopeClassification → Type κ) (cs : List ScopeClassification) (id : String)
    (c : ScopeClassification)
    → All P cs
    → class_by_id cs id ≡ some c
    → P c × (c.scope_id ≡ id)
unfolding class_by_id
class_by_id-All P [] id c h f = absurd (cc)
class_by_id-All P (x ∷ cs) id c (p, h) f = elim (Option-cases (class_by_id cs id)) [
  | inl gone ↦ elim (Bool-cases (x.scope_id == id)) [
    | inl here ↦ let e : x ≡ c = ground arith in (subst P e p, ground (arith, eq_iff x.scope_id id))
    | inr other ↦ absurd (ground arith)
  ]
  | inr (d, later) ↦ class_by_id-All P cs id c h (ground arith)
]

pub class_by_id-any :
    (p : ScopeClassification → Bool) (cs : List ScopeClassification) (id : String)
    (c : ScopeClassification)
    → class_by_id cs id ≡ some c
    → any p cs ≡ false
    → p c ≡ false
unfolding class_by_id
class_by_id-any p [] id c f h = absurd (cc)
class_by_id-any p (x ∷ cs) id c f h = elim (Option-cases (class_by_id cs id)) [
  | inl gone ↦ ground arith
  | inr (d, later) ↦ class_by_id-any p cs id c (ground arith) (ground arith)
]

pub All-TtlWithin-le :
    (t u : ℕ) (cs : List ScopeClassification) → t ≤ u → All (TtlWithin u) cs → All (TtlWithin t) cs
All-TtlWithin-le t u [] h k = tt
All-TtlWithin-le t u (c ∷ cs) h (p, k) = (omega arith, All-TtlWithin-le t u cs h k)
