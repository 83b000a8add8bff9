-- ===== src/Store/Keyed.antt =====
-- Tables with a primary key of text.
use helpan_ai.Prelude.{
  String, Bool, true, false, some, List, [], ◌∷◌, ◌++◌, ◌≡◌, refl, ap, ◌∙◌, arith, ◌==◌, eq_iff,
  any, find, select, update_where, All, Bool-cases, inl, inr,
}
use mathlib.Core.Path.{subst}

module _ {A : Type 0} (key : A → String) where
  abbrev pub has_key : String → A → Bool
  has_key id row = key row == id

  abbrev pub HasUniqueKeys : List A → Type 0
  HasUniqueKeys [] = Unit
  HasUniqueKeys (row ∷ rows) = (any (has_key (key row)) rows ≡ false) × HasUniqueKeys rows

  any-update_where :
      (p : A → Bool) (j : String) (f : A → A) (rows : List A)
      → ((a : A) → key (f a) ≡ key a)
      → any (has_key j) (update_where p f rows) ≡ any (has_key j) rows
  any-update_where p j f [] keeps = refl
  any-update_where p j f (x ∷ rows) keeps =
      ground (arith, ap (λ k. k == j) (keeps x), any-update_where p j f rows keeps)

  pub update_where-HasUniqueKeys :
      (p : A → Bool) (f : A → A) (rows : List A)
      → ((a : A) → key (f a) ≡ key a)
      → HasUniqueKeys rows
      → HasUniqueKeys (update_where p f rows)
  update_where-HasUniqueKeys p f [] keeps h = tt
  update_where-HasUniqueKeys p f (x ∷ rows) keeps (first, h) = elim (Bool-cases (p x)) [
    | inl hit ↦
        rw (hit, update_where)
          (
            ap (λ k. any (has_key k) (update_where p f rows)) (keeps x)
                ∙ any-update_where p (key x) f rows keeps
                ∙ first,
            update_where-HasUniqueKeys p f rows keeps h,
          )
    | inr miss ↦
        rw (miss, update_where)
          (
            any-update_where p (key x) f rows keeps ∙ first,
            update_where-HasUniqueKeys p f rows keeps h,
          )
  ]

  apart : (a b : String) → (a == b) ≡ false → (b == a) ≡ false
  apart a b h = ground (arith, eq_iff a b, eq_iff b a)

  any_append :
      (j : String) (rows : List A) (row : A)
      → any (has_key j) rows ≡ false
      → (key row == j) ≡ false
      → any (has_key j) (rows ++ row ∷ []) ≡ false
  any_append j [] row h k = ground arith
  any_append j (x ∷ rows) row h k = ground (arith, any_append j rows row)

  pub append-HasUniqueKeys :
      (row : A) (rows : List A)
      → any (has_key (key row)) rows ≡ false
      → HasUniqueKeys rows
      → HasUniqueKeys (rows ++ row ∷ [])
  append-HasUniqueKeys row [] fresh h = (refl, tt)
  append-HasUniqueKeys row (x ∷ rows) fresh (first, h) = (
    any_append (key x) rows row first (apart (key x) (key row) (ground arith)),
    append-HasUniqueKeys row rows (ground arith) h,
  )

  any-select :
      (j : String) (p : A → Bool) (rows : List A)
      → any (has_key j) rows ≡ false
      → any (has_key j) (select p rows) ≡ false
  any-select j p [] h = refl
  any-select j p (x ∷ rows) h = ground (arith, any-select j p rows)

  pub select-HasUniqueKeys :
      (p : A → Bool) (rows : List A) → HasUniqueKeys rows → HasUniqueKeys (select p rows)
  select-HasUniqueKeys p [] h = tt
  select-HasUniqueKeys p (x ∷ rows) (first, h) = elim (Bool-cases (p x)) [
    | inl hit ↦ rw (hit, select) (any-select (key x) p rows first, select-HasUniqueKeys p rows h)
    | inr miss ↦ rw (miss, select) (select-HasUniqueKeys p rows h)
  ]

  -- Where keys are unique, the rows with a key are the one that a read by it finds.
  abbrev pub IsFound : String → A → A → Type 0
  IsFound j r a = has_key j a ≡ true → a ≡ r

  none-IsFound :
      (j : String) (r : A) (rows : List A) → any (has_key j) rows ≡ false → All (IsFound j r) rows
  none-IsFound j r [] h = tt
  none-IsFound j r (x ∷ rows) h =
      (λ here. absurd (ground arith), none-IsFound j r rows (ground arith))

  pub All-IsFound :
      (j : String) (r : A) (rows : List A)
      → HasUniqueKeys rows
      → find (has_key j) rows ≡ some r
      → All (IsFound j r) rows
  All-IsFound j r [] h f = tt
  All-IsFound j r (x ∷ rows) (first, h) f = elim (Bool-cases (key x == j)) [
    | inl here ↦
        let same : x ≡ r = ground arith in
        let alone : any (has_key j) rows ≡ false =
          subst (λ k. any (has_key k) rows ≡ false) ((eq_iff (key x) j).0 here) first in
        (λ _. same, none-IsFound j r rows alone)
    | inr other ↦
        let rest : find (has_key j) rows ≡ some r = ground arith in
        (λ here. absurd (ground arith), All-IsFound j r rows h rest)
  ]
