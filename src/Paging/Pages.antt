-- ===== src/Paging/Pages.antt =====
-- A reader that follows the cursors, page after page.
use helpan_ai.Prelude.{
  ℕ, zero, suc, ◌+◌, ◌≤◌, ◌<◌, ◌*◌, ◌/◌, ◌%◌, String, Bool, true, false, Option, none, some, List,
  [], ◌∷◌, ◌++◌, ◌≡◌, ◌≢◌, refl, sym, ap, ◌∙◌, ◌⊎◌, inl, inr, arith, ltb, nat_eq, length, take,
  select, select-select, All, All-at, All-select-eq, All-select_of, take-split, take-take-suc,
  take-eq_self, length-take, last-append, append_assoc, Bool-cases,
}
use mathlib.Core.Path.{subst}
use helpan_ai.Store.Keyed.{HasUniqueKeys, select-HasUniqueKeys}
use helpan_ai.Paging.{
  Cursor, before_key, newest_first, follows, list_rows, cursor_of, page_of, list_page, clamp_limit,
}
use helpan_ai.Paging.Texts.{text_lt-irreflexive}
use helpan_ai.Paging.Order.{
  IsNewestFirst, length-newest_first, newest_first-All, newest_first-IsNewestFirst,
  select-newest_first, select_behind,
}

module _ {A : Type 0} (created : A → ℕ) (id_of : A → String) (keep : A → Bool) (limit : Option ℕ)
    (rows : List A) where
  abbrev joined : List A × Option Cursor → (Cursor → List A) → List A
  joined (page, none) later = page
  joined (page, some next) later = page ++ later next

  -- The pages that a client reads in `fuel` requests, from a cursor on.
  unfoldable pub read_pages : ℕ → Option Cursor → List A
  read_pages zero cursor = []
  read_pages (suc fuel) cursor =
      joined (list_page created id_of keep cursor limit rows) (λ next. read_pages fuel (some next))

  -- The cursor of x tells y from x: they are the same row, or of different milliseconds, or x was
  -- created at a whole millisecond.
  abbrev pub IsTold : A → A → Type 0
  IsTold x y = (x ≡ y) ⊎ ((created x / 1000 ≢ created y / 1000) ⊎ (created x % 1000 ≡ 0))

  abbrev pub HasToldRows : Type 0
  HasToldRows = All (λ x. All (IsTold x) rows) rows

  follows-cursor_of :
      (x y : A)
      → IsTold x y
      → follows created id_of (some (cursor_of created id_of x)) y
        ≡ before_key created id_of (created x) (id_of x) y
  follows-cursor_of x y (inl same) =
      subst
        (λ z.
          before_key created id_of (created x / 1000 * 1000) (id_of x) z
          ≡ before_key created id_of (created x) (id_of x) z)
        same (ground (arith, text_lt-irreflexive (id_of x)))
  follows-cursor_of x y (inr (inl apart)) =
      let earlier : ltb (created y) (created x / 1000 * 1000) ≡ ltb (created y) (created x) =
        ground (arith, apart) in
      let not_here : nat_eq (created y) (created x / 1000 * 1000) ≡ false = ground (arith, apart) in
      let nor_there : nat_eq (created y) (created x) ≡ false = ground (arith, apart) in
      ground (arith, earlier, not_here, nor_there)
  follows-cursor_of x y (inr (inr whole)) =
      let same : created x / 1000 * 1000 ≡ created x = omega (arith, whole) in
      ap (λ us. before_key created id_of us (id_of x) y) same

  abbrev pub all_rows : List A
  all_rows = newest_first created id_of (select keep rows)

  select_every : (xs : List A) → select (λ x. follows created id_of none x) xs ≡ xs
  select_every [] = refl
  select_every (x ∷ xs) = ap (λ l. x ∷ l) (select_every xs)

  list_rows-follows :
      (cursor : Option Cursor) (n : ℕ)
      → HasUniqueKeys id_of rows
      → list_rows created id_of keep cursor n rows
        ≡ take n (select (follows created id_of cursor) all_rows)
  unfolding list_rows
  list_rows-follows cursor n unique =
      ap (λ l. take n (newest_first created id_of l))
        (select-select keep (follows created id_of cursor) rows)
      ∙ ap (take n) (
          sym (
            select-newest_first created id_of (follows created id_of cursor) (select keep rows)
              (select-HasUniqueKeys id_of keep rows unique)))

  limit_bounds : (0 < clamp_limit limit) × (clamp_limit limit ≤ 200)
  limit_bounds = ground arith

  -- A page that is not the last one.
  page_of-more :
      (m : ℕ) (left : List A) (x : A) (before : List A)
      → suc m < length left
      → take (suc m) left ≡ before ++ x ∷ []
      → page_of created id_of (suc m) (take (suc (suc m)) left)
        ≡ (before ++ x ∷ [], some (cursor_of created id_of x))
  unfolding page_of
  page_of-more m left x before h taken =
      let full = length-take (suc (suc m)) left (omega (arith, h)) in
      let page = take-take-suc (suc m) left ∙ taken in
      let more : ltb (suc m) (length (take (suc (suc m)) left)) ≡ true = ground (arith, full) in
      rw (more, page, last-append before x) refl

  page_of-last :
      (n : ℕ) (left : List A)
      → length left ≤ n
      → page_of created id_of n (take (suc n) left) ≡ (left, none)
  unfolding page_of
  page_of-last n left h =
      let all = take-eq_self (suc n) left (omega (arith, h)) in
      let no_more : ltb n (length left) ≡ false = ground (arith, h) in rw (all, no_more) refl

  all_rows-All : (P : A → Type 0) → All P rows → All P all_rows
  all_rows-All P h =
      newest_first-All created id_of P (select keep rows) (All-select_of P keep rows h)

  IsTold-all_rows :
      (ahead : List A) (x : A) (behind : List A)
      → all_rows ≡ ahead ++ x ∷ behind
      → HasToldRows
      → All (IsTold x) all_rows
  IsTold-all_rows ahead x behind split told = all_rows-All (IsTold x) (
      All-at (λ y. All (IsTold y) rows) ahead x behind
        (subst (All (λ y. All (IsTold y) rows)) split
          (all_rows-All (λ y. All (IsTold y) rows) told)))

  module _ (unique : HasUniqueKeys id_of rows) (told : HasToldRows) where
    reads_behind :
        (ahead : List A) (x : A) (behind : List A)
        → all_rows ≡ ahead ++ x ∷ behind
        → select (follows created id_of (some (cursor_of created id_of x))) all_rows ≡ behind
    reads_behind ahead x behind split =
        All-select-eq (IsTold x) _ _ all_rows (follows-cursor_of x)
          (IsTold-all_rows ahead x behind split told)
        ∙ ap (select (before_key created id_of (created x) (id_of x))) split
        ∙ select_behind created id_of ahead x behind (
            subst (IsNewestFirst created id_of) split (
              newest_first-IsNewestFirst created id_of (select keep rows)
                (select-HasUniqueKeys id_of keep rows unique)))

    -- What is left to be read from a cursor on, where the rows before it are `ahead`.
    abbrev IsLeft : Option Cursor → List A → List A → Type 0
    IsLeft cursor ahead left =
        (all_rows ≡ ahead ++ left) × (select (follows created id_of cursor) all_rows ≡ left)

    IsLeft-next :
        (ahead before : List A) (x : A) (after : List A)
        → all_rows ≡ ahead ++ (before ++ x ∷ after)
        → IsLeft (some (cursor_of created id_of x)) ((ahead ++ before) ++ x ∷ []) after
    IsLeft-next ahead before x after split =
        let regrouped : all_rows ≡ (ahead ++ before) ++ x ∷ after =
          split ∙ sym (append_assoc ahead before (x ∷ after)) in
        (
          regrouped ∙ sym (append_assoc (ahead ++ before) (x ∷ []) after),
          reads_behind (ahead ++ before) x after regrouped,
        )

    list_page-left :
        (cursor : Option Cursor) (ahead left : List A)
        → IsLeft cursor ahead left
        → list_page created id_of keep cursor limit rows
          ≡ page_of created id_of (clamp_limit limit) (take (suc (clamp_limit limit)) left)
    unfolding list_page
    list_page-left cursor ahead left (split, reads) =
        ap (page_of created id_of (clamp_limit limit)) (
          list_rows-follows cursor (suc (clamp_limit limit)) unique
          ∙ ap (take (suc (clamp_limit limit))) reads)

    -- A page with more behind it: it ends in some row x.
    list_page-more :
        (m : ℕ) (left : List A)
        → suc m < length left
        → (before : List A) × (x : A) × (after : List A) × (left ≡ before ++ x ∷ after)
          × (page_of created id_of (suc m) (take (suc (suc m)) left)
              ≡ (before ++ x ∷ [], some (cursor_of created id_of x)))
          × (length after + suc m ≡ length left)
    list_page-more m left h =
        let (before, x, after, cut, taken, rest) = take-split m left (omega (arith, h)) in
        (before, x, after, cut, page_of-more m left x before h taken, rest)

    abbrev Reads : ℕ → Type 0
    Reads fuel =
        (cursor : Option Cursor) (ahead left : List A)
        → IsLeft cursor ahead left
        → length left ≤ fuel
        → read_pages fuel cursor ≡ left

    joined-left :
        (fuel : ℕ)
        → Reads fuel
        → (n : ℕ) (cursor : Option Cursor) (ahead left : List A) → IsLeft cursor ahead left
        → length left ≤ suc fuel
        → 0 < n
        → joined (page_of created id_of n (take (suc n) left)) (λ next. read_pages fuel (some next))
          ≡ left
    joined-left fuel reads zero cursor ahead left h k least = absurd (omega (arith, least))
    joined-left fuel reads (suc m) cursor ahead left h k least =
        elim (Bool-cases (ltb (suc m) (length left))) [
          | inr last_page ↦
              ap (λ p. joined p (λ next. read_pages fuel (some next)))
                (page_of-last (suc m) left (ground arith))
          | inl more ↦
              let (before, x, after, cut, page, rest) = list_page-more m left (ground arith) in
              let again =
                reads (some (cursor_of created id_of x)) _ after
                  (IsLeft-next ahead before x after (h.0 ∙ ap (λ l. ahead ++ l) cut))
                  (omega (arith, rest, k)) in
              ap (λ p. joined p (λ next. read_pages fuel (some next))) page
              ∙ ap (λ l. (before ++ x ∷ []) ++ l) again
              ∙ append_assoc before (x ∷ []) after
              ∙ sym cut
        ]

    read_pages-left : (fuel : ℕ) → Reads fuel
    unfolding read_pages
    read_pages-left zero cursor ahead [] h k = refl
    read_pages-left zero cursor ahead (x ∷ left) h k = absurd (omega (arith, k))
    read_pages-left (suc fuel) cursor ahead left h k =
        ap (λ p. joined p (λ next. read_pages fuel (some next)))
          (list_page-left cursor ahead left h)
        ∙ joined-left fuel (read_pages-left fuel) (clamp_limit limit) cursor ahead left h k
            limit_bounds.0

    -- Where ids are unique and the cursor of each row tells every other row from it, a client that
    -- follows the cursors from the first page on reads, with a request for each of its rows at
    -- most, exactly the rows that the filter keeps, each once, newest first.
    pub read_pages-all_rows :
        (fuel : ℕ) → length (select keep rows) ≤ fuel → read_pages fuel none ≡ all_rows
    read_pages-all_rows fuel h =
        read_pages-left fuel none [] all_rows (refl, select_every all_rows)
          (omega (arith, h, length-newest_first created id_of (select keep rows)))
