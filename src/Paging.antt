-- ===== src/Paging.antt =====
-- Lists that are read newest first, a page at a time: the queries of `listAuthorities`,
-- `listActions`, `listBriefings` and their services, which differ in the table and its filters.
pub mod Texts
pub mod Order
pub mod Pages
use Prim.Native.String.{compare}
use text.Mathlib.Text.{is_lt}
use helpan_ai.Prelude.{
  ℕ, suc, ◌*◌, ◌/◌, String, Bool, true, false, ◌&&◌, ◌||◌, Option, none, some, List, [], ◌∷◌, ◌==◌,
  ltb, leb, nat_eq, select, take, length, last, if◌then◌else◌,
}

-- What a cursor's text holds: the ISO text's milliseconds and the id.
pub record Cursor : Type 0 where
  pub ms : ℕ
  pub id : String

abbrev pub default_list_limit : ℕ
default_list_limit = 50

abbrev pub max_list_limit : ℕ
max_list_limit = 200

abbrev min : ℕ → ℕ → ℕ
min a b = if leb a b then a else b

abbrev max : ℕ → ℕ → ℕ
max a b = if leb a b then b else a

abbrev limit_or_default : Option ℕ → ℕ
limit_or_default none = default_list_limit
limit_or_default (some n) = n

-- `Math.min(Math.max(limit ?? DEFAULT_LIST_LIMIT, 1), MAX_LIST_LIMIT)`.
abbrev pub clamp_limit : Option ℕ → ℕ
clamp_limit limit = min (max (limit_or_default limit) 1) max_list_limit

-- A filter that is set where the text is not empty, `if (input.appId)`.
abbrev pub text_is : Option String → String → Bool
text_is none text = true
text_is (some t) text = t == "" || text == t

-- A table's key: the instant, in microseconds, and the id.
module _ {A : Type 0} (created : A → ℕ) (id_of : A → String) where
  -- (instant, id) is below (us, id): the row comes later in the list.
  abbrev pub before_key : ℕ → String → A → Bool
  before_key us id row =
      ltb (created row) us || (nat_eq (created row) us && is_lt (compare (id_of row) id))

  -- ORDER BY instant DESC, id DESC.
  unfoldable pub insert_newest : A → List A → List A
  insert_newest row [] = row ∷ []
  insert_newest row (x ∷ xs) = elim (before_key (created row) (id_of row) x) [
    | true ↦ row ∷ x ∷ xs
    | false ↦ x ∷ insert_newest row xs
  ]

  unfoldable pub newest_first : List A → List A
  unfolding insert_newest
  newest_first [] = []
  newest_first (x ∷ xs) = insert_newest x (newest_first xs)

  -- The condition that a cursor adds: instant < cursor OR (instant = cursor AND id < cursor's).
  abbrev pub follows : Option Cursor → A → Bool
  follows none row = true
  follows (some c) row = before_key (c.ms * 1000) c.id row

  unfoldable pub list_rows : (A → Bool) → Option Cursor → ℕ → List A → List A
  unfolding newest_first
  list_rows keep cursor limit rows =
      take limit (newest_first (select (λ row. keep row && follows cursor row) rows))

  -- `toISOString` drops the microseconds.
  abbrev pub cursor_of : A → Cursor
  cursor_of row = record { ms = created row / 1000; id = id_of row }

  abbrev next_cursor : Option A → Option Cursor
  next_cursor none = none
  next_cursor (some row) = some (cursor_of row)

  -- One row more than the page is read, to see whether there is another page.
  unfoldable pub page_of : ℕ → List A → List A × Option Cursor
  page_of limit rows =
      if ltb limit (length rows)
      then (take limit rows, next_cursor (last (take limit rows)))
      else (rows, none)

  unfoldable pub list_page : (A → Bool) → Option Cursor → Option ℕ → List A → List A × Option Cursor
  unfolding list_rows page_of
  list_page keep cursor limit rows =
      page_of (clamp_limit limit) (list_rows keep cursor (suc (clamp_limit limit)) rows)
