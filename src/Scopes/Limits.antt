-- ===== src/Scopes/Limits.antt =====
-- The tightest TTL ceiling, against its description.
use helpan_ai.Prelude.{ℕ, ◌≤◌, some, List, [], ◌∷◌, ◌≡◌, arith, All, Bool-cases, inl, inr, ltb}
use helpan_ai.Store.Tx.{ok}
use helpan_ai.Scopes.{ScopeClassification, tightest_from, tightest_ttl_seconds}

abbrev pub TtlWithin : ℕ → ScopeClassification → Type 0
TtlWithin ttl c = ttl ≤ c.max_ttl_seconds

tightest_from-le :
    (min : ℕ) (cs : List ScopeClassification) (t : ℕ)
    → tightest_from (some min) cs ≡ some t
    → (t ≤ min) × All (TtlWithin t) cs
unfolding tightest_from
tightest_from-le min [] t h = ground arith
tightest_from-le min (c ∷ cs) t h = elim (Bool-cases (ltb c.max_ttl_seconds min)) [
  | inl less ↦
      let (bound, rest) = tightest_from-le c.max_ttl_seconds cs t (rw less at h) in
      (ground arith, (bound, rest))
  | inr more ↦
      let (bound, rest) = tightest_from-le min cs t (rw more at h) in (bound, (ground arith, rest))
]

-- The tightest ceiling is at most every ceiling of the set.
pub tightest_ttl_seconds-le :
    (cs : List ScopeClassification) (t : ℕ) → tightest_ttl_seconds cs ≡ ok t → All (TtlWithin t) cs
unfolding tightest_ttl_seconds
tightest_ttl_seconds-le [] t h = cc
tightest_ttl_seconds-le (c ∷ cs) t h = tightest_from-le c.max_ttl_seconds cs t (ground arith)
