-- ===== src/Json.antt =====
-- JSON values as JavaScript holds them (the `unknown` and `Record<string, unknown>` of the source).
-- Numbers are integers: the amounts, counts and millisecond times of the program. An object is
-- the list of its own enumerable string keys, in insertion order.
pub mod Stringify
use helpan_ai.Prelude.{ℕ, String, Bool, true, false, Option, none, some, List, [], ◌∷◌, ◌==◌}

pub data Number : Type 0 where
  pos : ℕ → Number
  -- `negsuc n` is -(n + 1).
  negsuc : ℕ → Number

mutual
  pub data Json : Type 0 where
    null : Json
    bool : Bool → Json
    num : Number → Json
    str : String → Json
    arr : Items → Json
    obj : Fields → Json

  pub data Items : Type 0 where
    nil : Items
    cons : Json → Items → Items

  pub data Fields : Type 0 where
    end : Fields
    field : String → Json → Fields → Fields

-- `obj[key]` on a plain object: `none` is `undefined`.
unfoldable pub get_field : String → Fields → Option Json
get_field key end = none
get_field key (field k v rest) = elim (k == key) [ true ↦ some v | false ↦ get_field key rest ]

abbrev pub string_list : List String → Items
string_list [] = nil
string_list (s ∷ ss) = cons (str s) (string_list ss)

abbrev pub nat : ℕ → Json
nat n = num (pos n)

-- A spread of a conditional field, `...(v ? { key: v } : {})`.
abbrev pub with_text : String → Option String → Fields → Fields
with_text key none rest = rest
with_text key (some s) rest = field key (str s) rest

-- `v ?? null`.
abbrev pub text_or_null : Option String → Json
text_or_null none = null
text_or_null (some s) = str s
