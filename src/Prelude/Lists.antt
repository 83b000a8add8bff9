-- ===== src/Prelude/Lists.antt =====
-- Lists over the native numbers, and the searches that the source makes in arrays and tables.
use Prim.Native.Nat.{ℕ, zero, suc, ◌+◌, ◌≤◌}
use mathlib.Core.Path.{◌≡◌, refl}
use mathlib.Core.Bool.{Bool, true, false, ◌||◌, ◌&&◌}
use mathlib.Core.Option.{Option, none, some}
use mathlib.Core.List.{List, [], ◌∷◌, ◌++◌}
use helpan_ai.Prelude.Tests.{Bool-cases, if◌then◌else◌}
use mathlib.Core.Logic.{◌⊎◌, inl, inr}
use native.Mathlib.Omega.{arith}

module _ {ℓ} {A : Type ℓ} where
  abbrev pub length : List A → ℕ
  length [] = 0
  length (x ∷ xs) = suc (length xs)

  abbrev pub take : ℕ → List A → List A
  take zero xs = []
  take (suc n) [] = []
  take (suc n) (x ∷ xs) = x ∷ take n xs

  abbrev pub last : List A → Option A
  last [] = none
  last (x ∷ []) = some x
  last (x ∷ y ∷ xs) = last (y ∷ xs)

  abbrev pub any : (A → Bool) → List A → Bool
  any p [] = false
  any p (x ∷ xs) = p x || any p xs

  -- `Array.prototype.find`, and a SELECT … LIMIT 1 by a key.
  abbrev pub find : (A → Bool) → List A → Option A
  find p [] = none
  find p (x ∷ xs) = elim (p x) [ true ↦ some x | false ↦ find p xs ]

  -- The rows that a WHERE clause admits, in their order.
  abbrev pub select : (A → Bool) → List A → List A
  select p [] = []
  select p (x ∷ xs) = let rest = select p xs in elim (p x) [ true ↦ x ∷ rest | false ↦ rest ]

  -- An UPDATE of the rows that a WHERE clause admits.
  abbrev pub update_where : (A → Bool) → (A → A) → List A → List A
  update_where p f [] = []
  update_where p f (x ∷ xs) = elim (p x) [ true ↦ f x | false ↦ x ] ∷ update_where p f xs

  pub find-admits : (p : A → Bool) (xs : List A) (a : A) → find p xs ≡ some a → p a ≡ true
  find-admits p [] a h = cc
  find-admits p (x ∷ xs) a h = ground (arith, find-admits p xs a)

  pub find-append_fresh :
      (p : A → Bool) (xs : List A) (a : A)
      → any p xs ≡ false
      → p a ≡ true
      → find p (xs ++ a ∷ []) ≡ some a
  find-append_fresh p [] a h k = ground arith
  find-append_fresh p (x ∷ xs) a h k = ground (arith, find-append_fresh p xs a)

  pub find-append :
      (p : A → Bool) (xs ys : List A) (a : A) → find p xs ≡ some a → find p (xs ++ ys) ≡ some a
  find-append p [] ys a h = absurd (cc)
  find-append p (x ∷ xs) ys a h = ground (arith, find-append p xs ys a)

  pub any-find-none : (p : A → Bool) (xs : List A) → find p xs ≡ none → any p xs ≡ false
  any-find-none p [] h = refl
  any-find-none p (x ∷ xs) h = ground (arith, any-find-none p xs)

  pub update_where-eq_self :
      (p : A → Bool) (f : A → A) (xs : List A) → any p xs ≡ false → update_where p f xs ≡ xs
  update_where-eq_self p f [] h = refl
  update_where-eq_self p f (x ∷ xs) h = ground (arith, update_where-eq_self p f xs)

  pub find-any :
      (p q : A → Bool) (xs : List A) (a : A) → find p xs ≡ some a → q a ≡ true → any q xs ≡ true
  find-any p q [] a h k = absurd (cc)
  find-any p q (x ∷ xs) a h k = ground (arith, find-any p q xs a)

  -- An UPDATE that no more changes what a search looks at, as the search sees it.
  pub find-update_where :
      (p q : A → Bool) (f : A → A) (xs : List A) (a : A)
      → ((x : A) → p (f x) ≡ p x)
      → find p xs ≡ some a
      → find p (update_where q f xs) ≡ some (if q a then f a else a)
  find-update_where p q f [] a keeps h = absurd (cc)
  find-update_where p q f (x ∷ xs) a keeps h = elim (Bool-cases (p x)) [
    | inl here ↦
        let same : x ≡ a = ground arith in
        rw (← same)
          (elim (Bool-cases (q x)) [ inl hit ↦ ground (arith, keeps x) | inr miss ↦ ground arith ])
    | inr other ↦
        let rest : find p xs ≡ some a = ground arith in
        ground (arith, keeps x, find-update_where p q f xs a keeps rest)
  ]

  pub length-append : (xs ys : List A) → length (xs ++ ys) ≡ length xs + length ys
  length-append [] ys = omega arith
  length-append (x ∷ xs) ys = omega (arith, length-append xs ys)

  pub length-take-le : (n : ℕ) (xs : List A) → length (take n xs) ≤ n
  length-take-le zero xs = omega arith
  length-take-le (suc n) [] = omega arith
  length-take-le (suc n) (x ∷ xs) = omega (arith, length-take-le n xs)

  pub length-update_where :
      (p : A → Bool) (f : A → A) (xs : List A) → length (update_where p f xs) ≡ length xs
  length-update_where p f [] = refl
  length-update_where p f (x ∷ xs) = omega (arith, length-update_where p f xs)

  pub select-select :
      (p q : A → Bool) (xs : List A) → select (λ x. p x && q x) xs ≡ select q (select p xs)
  select-select p q [] = refl
  select-select p q (x ∷ xs) = ground (arith, select-select p q xs)

module _ {ℓ κ} {A : Type ℓ} (P : A → Type κ) where
  abbrev pub All : List A → Type κ
  All [] = Unit
  All (x ∷ xs) = P x × All xs

  pub All-append : (xs ys : List A) → All xs → All ys → All (xs ++ ys)
  All-append [] ys h k = k
  All-append (x ∷ xs) ys (p, h) k = (p, All-append xs ys h k)

  pub All-at : (xs : List A) (x : A) (ys : List A) → All (xs ++ x ∷ ys) → P x
  All-at [] x ys (h, rest) = h
  All-at (z ∷ xs) x ys (h, rest) = All-at xs x ys rest

  pub All-select-eq :
      (p q : A → Bool) (xs : List A)
      → ((a : A) → P a → p a ≡ q a)
      → All xs
      → select p xs ≡ select q xs
  All-select-eq p q [] same h = refl
  All-select-eq p q (x ∷ xs) same (a, h) = ground (arith, same x a, All-select-eq p q xs same h)

  pub All-update_where :
      (p : A → Bool) (f : A → A) (xs : List A)
      → ((a : A) → P a → P (f a))
      → All xs
      → All (update_where p f xs)
  All-update_where p f [] keeps h = tt
  All-update_where p f (x ∷ xs) keeps (a, h) = elim (Bool-cases (p x)) [
    | inl hit ↦ rw (hit, update_where) (keeps x a, All-update_where p f xs keeps h)
    | inr miss ↦ rw (miss, update_where) (a, All-update_where p f xs keeps h)
  ]

  pub All-select : (p : A → Bool) (xs : List A) → ((a : A) → p a ≡ true → P a) → All (select p xs)
  All-select p [] h = tt
  All-select p (x ∷ xs) h = elim (Bool-cases (p x)) [
    | inl hit ↦ rw (hit, select) (h x hit, All-select p xs h)
    | inr miss ↦ rw (miss, select) (All-select p xs h)
  ]

  pub All-select_of : (p : A → Bool) (xs : List A) → All xs → All (select p xs)
  All-select_of p [] h = tt
  All-select_of p (x ∷ xs) (a, h) = elim (Bool-cases (p x)) [
    | inl hit ↦ rw (hit, select) (a, All-select_of p xs h)
    | inr miss ↦ rw (miss, select) (All-select_of p xs h)
  ]

  pub All-take : (n : ℕ) (xs : List A) → All xs → All (take n xs)
  All-take zero xs h = tt
  All-take (suc n) [] h = tt
  All-take (suc n) (x ∷ xs) (a, h) = (a, All-take n xs h)

module _ {ℓ κ μ} {A : Type ℓ} (P : A → Type κ) (Q : A → Type μ) where
  pub All-map : (xs : List A) → ((a : A) → P a → Q a) → All P xs → All Q xs
  All-map [] f h = tt
  All-map (x ∷ xs) f (a, h) = (f x a, All-map xs f h)

module _ {ℓ} {A : Type ℓ} (P : A → Type 0) where
  abbrev pub Any : List A → Type 0
  Any [] = ⊥
  Any (x ∷ xs) = P x ⊎ Any xs

  pub any-Any :
      (p : A → Bool) (xs : List A) → ((a : A) → p a ≡ true → P a) → any p xs ≡ true → Any xs
  any-Any p [] f h = absurd (ground arith)
  any-Any p (x ∷ xs) f h = elim (Bool-cases (p x)) [
    | inl hit ↦ inl (f x hit)
    | inr miss ↦ inr (any-Any p xs f (ground arith))
  ]
