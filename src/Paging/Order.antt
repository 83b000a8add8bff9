-- ===== src/Paging/Order.antt =====
-- The order of a paged list: the rows are sorted, newest first, and filters keep the order.
use helpan_ai.Prelude.{
  ℕ, suc, length, ◌<◌, String, Bool, true, false, List, [], ◌∷◌, ◌++◌, ◌≡◌, refl, ap, ◌∙◌, ◌⊎◌, inl,
  inr, arith, ◌==◌, any, select, All, All-map, All-at, Bool-cases, if◌then◌else◌,
}
use helpan_ai.Store.Keyed.{has_key, HasUniqueKeys}
use helpan_ai.Paging.Texts.{text_lt, text_lt-irreflexive, text_lt_transitive, text_lt_total}
use helpan_ai.Paging.{before_key, insert_newest, newest_first}

module _ {A : Type 0} (created : A → ℕ) (id_of : A → String) where
  -- y stands behind x.
  abbrev pub IsBehind : A → A → Type 0
  IsBehind x y = before_key created id_of (created x) (id_of x) y ≡ true

  before_self : (x : A) → before_key created id_of (created x) (id_of x) x ≡ false
  before_self x = ground (arith, text_lt-irreflexive (id_of x))

  before_cases :
      (x y : A)
      → IsBehind x y
      → (created y < created x) ⊎ ((created y ≡ created x) × (text_lt (id_of y) (id_of x) ≡ true))
  before_cases x y h = ground arith

  cases_before :
      (x y : A)
      → (created y < created x) ⊎ ((created y ≡ created x) × (text_lt (id_of y) (id_of x) ≡ true))
      → IsBehind x y
  cases_before x y h = ground arith

  IsBehind-transitive : (x y z : A) → IsBehind x y → IsBehind y z → IsBehind x z
  IsBehind-transitive x y z h k = cases_before x z (elim (before_cases x y h) [
    | inl first ↦ elim (before_cases y z k) [
      | inl second ↦ inl (omega (arith, first, second))
      | inr (same, later) ↦ inl (omega (arith, first, same))
    ]
    | inr (alike, earlier) ↦ elim (before_cases y z k) [
      | inl second ↦ inl (omega (arith, second, alike))
      | inr (same, later) ↦
          inr (same ∙ alike, text_lt_transitive (id_of z) (id_of y) (id_of x) later earlier)
    ]
  ])

  IsBehind-total :
      (x y : A)
      → (id_of y == id_of x) ≡ false
      → before_key created id_of (created x) (id_of x) y ≡ false
      → IsBehind y x
  IsBehind-total x y apart h = ground (arith, text_lt_total (id_of y) (id_of x) apart)

  abbrev pub IsNewestFirst : List A → Type 0
  IsNewestFirst [] = Unit
  IsNewestFirst (x ∷ xs) = All (IsBehind x) xs × IsNewestFirst xs

  insert_newest-All {κ} :
      (P : A → Type κ) (x : A) (xs : List A)
      → P x
      → All P xs
      → All P (insert_newest created id_of x xs)
  unfolding insert_newest
  insert_newest-All P x [] p h = (p, tt)
  insert_newest-All P x (y ∷ xs) p (q, h) = ground (arith, insert_newest-All P x xs p h)

  pub newest_first-All {κ} :
      (P : A → Type κ) (xs : List A) → All P xs → All P (newest_first created id_of xs)
  unfolding newest_first
  newest_first-All P [] h = tt
  newest_first-All P (x ∷ xs) (p, h) =
      insert_newest-All P x (newest_first created id_of xs) p (newest_first-All P xs h)

  length-insert_newest :
      (x : A) (xs : List A) → length (insert_newest created id_of x xs) ≡ suc (length xs)
  unfolding insert_newest
  length-insert_newest x [] = refl
  length-insert_newest x (y ∷ xs) = ground (arith, length-insert_newest x xs)

  pub length-newest_first : (xs : List A) → length (newest_first created id_of xs) ≡ length xs
  unfolding newest_first
  length-newest_first [] = refl
  length-newest_first (x ∷ xs) =
      length-insert_newest x (newest_first created id_of xs) ∙ ap suc (length-newest_first xs)

  abbrev IsOther : A → A → Type 0
  IsOther x y = (id_of y == id_of x) ≡ false

  others : (x : A) (xs : List A) → any (has_key id_of (id_of x)) xs ≡ false → All (IsOther x) xs
  others x [] h = tt
  others x (y ∷ xs) h = (ground arith, others x xs (ground arith))

  insert_newest-IsNewestFirst :
      (x : A) (xs : List A)
      → All (IsOther x) xs
      → IsNewestFirst xs
      → IsNewestFirst (insert_newest created id_of x xs)
  unfolding insert_newest
  insert_newest-IsNewestFirst x [] h k = (tt, tt)
  insert_newest-IsNewestFirst x (y ∷ xs) (apart, h) (all, k) =
      elim (Bool-cases (before_key created id_of (created x) (id_of x) y)) [
        | inl behind ↦
            rw (behind, insert_newest)
              ((behind, All-map _ _ xs (λ z c. IsBehind-transitive x y z behind c) all), (all, k))
        | inr ahead ↦
            rw (ahead, insert_newest)
              (
                insert_newest-All (IsBehind y) x xs (IsBehind-total x y apart ahead) all,
                insert_newest-IsNewestFirst x xs h k,
              )
      ]

  pub newest_first-IsNewestFirst :
      (xs : List A) → HasUniqueKeys id_of xs → IsNewestFirst (newest_first created id_of xs)
  unfolding newest_first
  newest_first-IsNewestFirst [] h = tt
  newest_first-IsNewestFirst (x ∷ xs) (first, h) =
      insert_newest-IsNewestFirst x (newest_first created id_of xs)
        (newest_first-All (IsOther x) xs (others x xs first)) (newest_first-IsNewestFirst xs h)

  module _ (f : A → Bool) where
    insert_newest-front :
        (x : A) (xs : List A) → All (IsBehind x) xs → insert_newest created id_of x xs ≡ x ∷ xs
    unfolding insert_newest
    insert_newest-front x [] h = refl
    insert_newest-front x (y ∷ xs) (behind, h) = rw (behind, insert_newest) refl

    select-All-IsBehind :
        (x : A) (xs : List A) → All (IsBehind x) xs → All (IsBehind x) (select f xs)
    select-All-IsBehind x [] h = tt
    select-All-IsBehind x (y ∷ xs) (b, h) = ground (arith, select-All-IsBehind x xs h)

    select-insert_newest :
        (x : A) (xs : List A)
        → IsNewestFirst xs
        → select f (insert_newest created id_of x xs)
          ≡ (if f x then insert_newest created id_of x (select f xs) else select f xs)
    unfolding insert_newest
    select-insert_newest x [] k = ground arith
    select-insert_newest x (y ∷ xs) (all, k) =
        elim (Bool-cases (before_key created id_of (created x) (id_of x) y)) [
          | inl behind ↦
              let all_behind : All (IsBehind x) (y ∷ xs) =
                (behind, All-map _ _ xs (λ z c. IsBehind-transitive x y z behind c) all) in
              ground (
                arith,
                insert_newest-front x (y ∷ xs) all_behind,
                insert_newest-front x (select f (y ∷ xs))
                    (select-All-IsBehind x (y ∷ xs) all_behind),
              )
          | inr ahead ↦ ground (arith, select-insert_newest x xs k)
        ]

    -- Sorting and filtering may change places.
    pub select-newest_first :
        (xs : List A)
        → HasUniqueKeys id_of xs
        → select f (newest_first created id_of xs) ≡ newest_first created id_of (select f xs)
    unfolding newest_first
    select-newest_first [] h = refl
    select-newest_first (x ∷ xs) (first, h) =
        select-insert_newest x (newest_first created id_of xs) (newest_first-IsNewestFirst xs h)
        ∙ ground (arith, select-newest_first xs h)

  -- The rows behind the one at a place are those that follow it.
  pub select_behind :
      (ahead : List A) (x : A) (behind : List A)
      → IsNewestFirst (ahead ++ x ∷ behind)
      → select (before_key created id_of (created x) (id_of x)) (ahead ++ x ∷ behind) ≡ behind
  select_behind [] x behind (all, h) = ground (arith, before_self x, select_all behind all)
    where
      select_all :
          (ys : List A)
          → All (IsBehind x) ys
          → select (before_key created id_of (created x) (id_of x)) ys ≡ ys
      select_all [] h = refl
      select_all (y ∷ ys) (b, h) = ground (arith, select_all ys h)
  select_behind (a ∷ ahead) x behind (all, h) =
      let here : IsBehind a x = All-at (IsBehind a) ahead x behind all in
      let ahead_of : before_key created id_of (created x) (id_of x) a ≡ false =
        elim (Bool-cases (before_key created id_of (created x) (id_of x) a)) [
          | inr apart ↦ apart
          | inl both ↦ absurd (ground (arith, before_self a, IsBehind-transitive a x a here both))
        ] in
      ground (arith, ahead_of, select_behind ahead x behind h)
