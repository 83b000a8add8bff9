-- ===== src/Paging/Texts.antt =====
-- The order of texts by their code points, in which ids are compared.
use Prim.Native.Nat.{Ordering, compare as compare_ℕ}
use Prim.Native.Char.{Char, code}
use Prim.Native.String.compare
use Prim.Native.String.{[], ◌∷◌, compare, then}
use text.Mathlib.Text.{is_eq, is_lt}
use text.Mathlib.TextEquality.{codes_equal}
use text.Mathlib.TextPositions.{compare_refl}
use helpan_ai.Prelude.{
  ℕ, ◌<◌, String, Bool, true, false, ◌≡◌, refl, sym, ap, ◌∙◌, ◌⊎◌, inl, inr, arith, ◌==◌,
}

abbrev pub text_lt : String → String → Bool
text_lt s t = is_lt (compare s t)

pub text_lt-irreflexive : (s : String) → text_lt s s ≡ false
text_lt-irreflexive s = ap is_lt (compare_refl s)

-- How two numbers compare.
compare_cases :
    (m n : ℕ)
    → ((m < n) × (compare_ℕ m n ≡ Ordering.lt))
      ⊎ (((m ≡ n) × (compare_ℕ m n ≡ Ordering.eq)) ⊎ ((n < m) × (compare_ℕ m n ≡ Ordering.gt)))
compare_cases m n =
    elim (compare_ℕ m n)
        as (λ o.
          compare_ℕ m n ≡ o
          → ((m < n) × (o ≡ Ordering.lt))
            ⊎ (((m ≡ n) × (o ≡ Ordering.eq)) ⊎ ((n < m) × (o ≡ Ordering.gt)))) [
              | Ordering.lt ↦ λ h. inl (ground arith, refl)
              | Ordering.eq ↦ λ h. inr (inl (ground arith, refl))
              | Ordering.gt ↦ λ h. inr (inr (ground arith, refl))
            ]
      refl

cons_compare :
    (c d : Char) (s t : String) (o : Ordering)
    → compare_ℕ (code c) (code d) ≡ o
    → compare (c ∷ s) (d ∷ t) ≡ then o (compare s t)
cons_compare c d s t o e = compare.cons-cons c d s t ∙ ap (λ x. then x (compare s t)) e

-- What a text's first letters decide.
cons-lt :
    (c d : Char) (s t : String)
    → text_lt (c ∷ s) (d ∷ t) ≡ true
    → (code c < code d) ⊎ ((c ≡ d) × (text_lt s t ≡ true))
cons-lt c d s t h = elim (compare_cases (code c) (code d)) [
  | inl (below, e) ↦ inl below
  | inr (inl (same, e)) ↦ inr (codes_equal c d e, sym (ap is_lt (cons_compare c d s t _ e)) ∙ h)
  | inr (inr (above, e)) ↦ absurd (ground (arith, sym (ap is_lt (cons_compare c d s t _ e)) ∙ h))
]

lt-cons :
    (c d : Char) (s t : String)
    → (code c < code d) ⊎ ((c ≡ d) × (text_lt s t ≡ true))
    → text_lt (c ∷ s) (d ∷ t) ≡ true
lt-cons c d s t h = elim (compare_cases (code c) (code d)) [
  | inl (below, e) ↦ ap is_lt (cons_compare c d s t _ e)
  | inr (inl (same, e)) ↦
      ap is_lt (cons_compare c d s t _ e)
      ∙ elim h [ inl below ↦ absurd (omega (arith, same, below)) | inr (alike, rest) ↦ rest ]
  | inr (inr (above, e)) ↦ elim h [
    | inl below ↦ absurd (omega (arith, above, below))
    | inr (alike, rest) ↦ absurd (omega (arith, above, ap code alike))
  ]
]

pub text_lt_transitive :
    (s t u : String) → text_lt s t ≡ true → text_lt t u ≡ true → text_lt s u ≡ true
text_lt_transitive [] [] u h k = k
text_lt_transitive [] (d ∷ t) [] h k =
    absurd (ground (arith, sym (ap is_lt (compare.cons-nil d t)) ∙ k))
text_lt_transitive [] (d ∷ t) (e ∷ u) h k = ap is_lt (compare.nil-cons e u)
text_lt_transitive (c ∷ s) [] u h k =
    absurd (ground (arith, sym (ap is_lt (compare.cons-nil c s)) ∙ h))
text_lt_transitive (c ∷ s) (d ∷ t) [] h k =
    absurd (ground (arith, sym (ap is_lt (compare.cons-nil d t)) ∙ k))
text_lt_transitive (c ∷ s) (d ∷ t) (e ∷ u) h k = lt-cons c e s u (elim (cons-lt c d s t h) [
  | inl first ↦ elim (cons-lt d e t u k) [
    | inl second ↦ inl (omega (arith, first, second))
    | inr (alike, later) ↦ inl (omega (arith, first, ap code alike))
  ]
  | inr (alike, earlier) ↦ elim (cons-lt d e t u k) [
    | inl second ↦ inl (omega (arith, second, ap code alike))
    | inr (same, later) ↦ inr (alike ∙ same, text_lt_transitive s t u earlier later)
  ]
])

flipped : (s t : String) → compare s t ≡ Ordering.gt → text_lt t s ≡ true
flipped [] [] h = absurd (ground (arith, sym compare.nil-nil ∙ h))
flipped [] (d ∷ t) h = absurd (ground (arith, sym (compare.nil-cons d t) ∙ h))
flipped (c ∷ s) [] h = ap is_lt (compare.nil-cons c s)
flipped (c ∷ s) (d ∷ t) h = lt-cons d c t s (elim (compare_cases (code c) (code d)) [
  | inl (below, e) ↦ absurd (ground (arith, sym (cons_compare c d s t _ e) ∙ h))
  | inr (inl (same, e)) ↦
      inr (sym (codes_equal c d e), flipped s t (sym (cons_compare c d s t _ e) ∙ h))
  | inr (inr (above, e)) ↦ inl above
])

pub text_lt_total : (s t : String) → (s == t) ≡ false → text_lt s t ≡ false → text_lt t s ≡ true
text_lt_total s t h k =
    (elim (compare s t) as (λ o. compare s t ≡ o → text_lt t s ≡ true) [
      | Ordering.lt ↦ λ e. absurd (ground (arith, sym (ap is_lt e) ∙ k))
      | Ordering.eq ↦ λ e. absurd (ground (arith, sym (ap is_eq e) ∙ h))
      | Ordering.gt ↦ λ e. flipped s t e
    ])
      refl
