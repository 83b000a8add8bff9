-- ===== src/Authorities/Claims/Audience.antt =====
-- The `aud` of the claim set: `buildAudience` of src/modules/authorities/claimBuilder.ts.
use helpan_ai.Prelude.{
  ℕ, String, Bool, true, false, ◌||◌, Option, none, some, List, [], ◌∷◌, ◌++◌, ◌≡◌, refl, ◌∙◌,
  arith, ◌==◌, eq_iff, any, Bool-cases, inl, inr,
}
use helpan_ai.Store.Rows.{AuthorityScope}
use helpan_ai.Authorities.Claims.{
  add_to_set, scope_audience, add_audience, audience_from, build_audience, BuildClaimsInput,
  build_delegated_authority_claims,
}

abbrev pub has_text : String → List String → Bool
has_text a set = any (λ t. t == a) set

abbrev pub IsDistinct : List String → Type 0
IsDistinct [] = Unit
IsDistinct (x ∷ xs) = (has_text x xs ≡ false) × IsDistinct xs

abbrev named_by : String → Option String → Bool
named_by a none = false
named_by a (some b) = b == a

-- A scope's rail has the audience.
abbrev pub is_audience_of : List (String × String) → String → AuthorityScope → Bool
is_audience_of rails a s = named_by a (scope_audience rails s)

has_text-append :
    (a b : String) (set : List String) → has_text a (set ++ b ∷ []) ≡ (has_text a set || b == a)
has_text-append a b [] = ground arith
has_text-append a b (x ∷ set) = ground (arith, has_text-append a b set)

append-IsDistinct :
    (b : String) (set : List String)
    → IsDistinct set
    → has_text b set ≡ false
    → IsDistinct (set ++ b ∷ [])
append-IsDistinct b [] h fresh = (refl, tt)
append-IsDistinct b (x ∷ set) (first, h) fresh = (
  has_text-append x b set ∙ ground (arith, eq_iff b x, eq_iff x b),
  append-IsDistinct b set h (ground arith),
)

has_text-same :
    (a b : String) (set : List String)
    → has_text b set ≡ true
    → (b == a) ≡ true
    → has_text a set ≡ true
has_text-same a b [] h same = absurd (cc)
has_text-same a b (x ∷ set) h same =
    ground (arith, eq_iff x b, eq_iff b a, eq_iff x a, has_text-same a b set)

has_text-add :
    (a b : String) (set : List String) → has_text a (add_to_set b set) ≡ (has_text a set || b == a)
unfolding add_to_set
has_text-add a b set = elim (Bool-cases (has_text b set)) [
  | inl there ↦ elim (Bool-cases (b == a)) [
    | inl same ↦ ground (arith, has_text-same a b set there same)
    | inr apart ↦ ground arith
  ]
  | inr fresh ↦ ground (arith, has_text-append a b set)
]

add-IsDistinct : (b : String) (set : List String) → IsDistinct set → IsDistinct (add_to_set b set)
unfolding add_to_set
add-IsDistinct b set h = elim (Bool-cases (has_text b set)) [
  | inl there ↦ rw (there) h
  | inr fresh ↦ rw (fresh) (append-IsDistinct b set h fresh)
]

has_text-add_audience :
    (a : String) (b : Option String) (set : List String)
    → has_text a (add_audience b set) ≡ (has_text a set || named_by a b)
has_text-add_audience a none set = ground arith
has_text-add_audience a (some b) set = has_text-add a b set

add_audience-IsDistinct :
    (b : Option String) (set : List String) → IsDistinct set → IsDistinct (add_audience b set)
add_audience-IsDistinct none set h = h
add_audience-IsDistinct (some b) set h = add-IsDistinct b set h

module _ (rails : List (String × String)) where
  has_text-audience_from :
      (a : String) (aud : List String) (scopes : List AuthorityScope)
      → has_text a (audience_from rails aud scopes)
        ≡ (has_text a aud || any (is_audience_of rails a) scopes)
  unfolding audience_from
  has_text-audience_from a aud [] = ground arith
  has_text-audience_from a aud (s ∷ scopes) = ground (
    arith,
    has_text-audience_from a (add_audience (scope_audience rails s) aud) scopes,
    has_text-add_audience a (scope_audience rails s) aud,
  )

  audience_from-IsDistinct :
      (aud : List String) (scopes : List AuthorityScope)
      → IsDistinct aud
      → IsDistinct (audience_from rails aud scopes)
  unfolding audience_from
  audience_from-IsDistinct aud [] h = h
  audience_from-IsDistinct aud (s ∷ scopes) h =
      audience_from-IsDistinct (add_audience (scope_audience rails s) aud) scopes
        (add_audience-IsDistinct (scope_audience rails s) aud h)

-- A token is addressed to a text exactly where it is the service's own audience or the audience of
-- the rail of a granted scope, and to none of them twice.
pub build_delegated_authority_claims-audience :
    (ulid : String) (now : ℕ) (input : BuildClaimsInput) (a : String)
    → (has_text a (build_delegated_authority_claims ulid now input).claims.aud
        ≡ (input.helpan_audience == a || any (is_audience_of input.scope_rails a) input.scopes))
      × IsDistinct (build_delegated_authority_claims ulid now input).claims.aud
unfolding build_delegated_authority_claims build_audience
build_delegated_authority_claims-audience ulid now input a = (
  has_text-audience_from input.scope_rails a (input.helpan_audience ∷ []) input.scopes
      ∙ ground arith,
  audience_from-IsDistinct input.scope_rails (input.helpan_audience ∷ []) input.scopes (refl, tt),
)
