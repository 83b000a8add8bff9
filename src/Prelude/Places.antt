-- ===== src/Prelude/Places.antt =====
-- Where a list is cut: its first elements, and what stands behind them.
use Prim.Native.Nat.{ℕ, zero, suc, ◌+◌, ◌≤◌, ◌<◌}
use mathlib.Core.Path.{◌≡◌, refl, ap}
use mathlib.Core.Option.{some}
use mathlib.Core.List.{List, [], ◌∷◌, ◌++◌}
use helpan_ai.Prelude.Lists.{length, take, last}
use native.Mathlib.Omega.{arith}

module _ {ℓ} {A : Type ℓ} where
  pub append_assoc : (xs ys zs : List A) → (xs ++ ys) ++ zs ≡ xs ++ (ys ++ zs)
  append_assoc [] ys zs = refl
  append_assoc (x ∷ xs) ys zs = ap (λ l. x ∷ l) (append_assoc xs ys zs)

  pub last-append : (xs : List A) (x : A) → last (xs ++ x ∷ []) ≡ some x
  last-append [] x = refl
  last-append (y ∷ []) x = refl
  last-append (y ∷ z ∷ xs) x = last-append (z ∷ xs) x

  -- A place in a list that is not the end of it.
  pub take-split :
      (m : ℕ) (xs : List A)
      → m < length xs
      → (before : List A) × (x : A) × (after : List A) × (xs ≡ before ++ x ∷ after)
        × (take (suc m) xs ≡ before ++ x ∷ [])
        × (length after + suc m ≡ length xs)
  take-split m [] h = absurd (omega (arith, h))
  take-split zero (x ∷ xs) h = ([], x, xs, refl, refl, omega arith)
  take-split (suc m) (x ∷ xs) h =
      let (before, y, after, split, taken, rest) = take-split m xs (omega (arith, h)) in
      (x ∷ before, y, after, ap (λ l. x ∷ l) split, ap (λ l. x ∷ l) taken, omega (arith, rest))

  pub take-take-suc : (n : ℕ) (xs : List A) → take n (take (suc n) xs) ≡ take n xs
  take-take-suc zero xs = refl
  take-take-suc (suc n) [] = refl
  take-take-suc (suc n) (x ∷ xs) = ap (λ l. x ∷ l) (take-take-suc n xs)

  pub take-eq_self : (n : ℕ) (xs : List A) → length xs ≤ n → take n xs ≡ xs
  take-eq_self zero [] h = refl
  take-eq_self zero (x ∷ xs) h = absurd (omega (arith, h))
  take-eq_self (suc n) [] h = refl
  take-eq_self (suc n) (x ∷ xs) h = ap (λ l. x ∷ l) (take-eq_self n xs (omega (arith, h)))

  pub length-take : (n : ℕ) (xs : List A) → n ≤ length xs → length (take n xs) ≡ n
  length-take zero xs h = refl
  length-take (suc n) [] h = absurd (omega (arith, h))
  length-take (suc n) (x ∷ xs) h = omega (arith, length-take n xs (omega (arith, h)))
