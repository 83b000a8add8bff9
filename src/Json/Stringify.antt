-- ===== src/Json/Stringify.antt =====
-- `JSON.stringify`, and `canonicalJson` of src/lib/auditWriter.ts.
use Prim.Native.Char.{Char, code}
use Prim.Native.String.{compare, slice, ◌++◌}
use text.Mathlib.Text.{is_le}
use helpan_ai.Prelude.{
  ℕ, zero, suc, ◌+◌, ◌/◌, ◌%◌, String, true, false, List, [], ◌∷◌, ltb, nat_eq, if◌then◌else◌,
}
use helpan_ai.Json.{
  Number, pos, negsuc, Json, null, bool, num, str, arr, obj, Items, nil, cons, Fields, end, field,
}

abbrev hex_digit : ℕ → String
hex_digit n = slice "0123456789abcdef" n (n + 1)

-- The escapes of a JSON text literal.
abbrev escape : Char → String
escape c =
    let n = code c in
    if nat_eq n 34
    then "\\\""
    else if nat_eq n 92
    then "\\\\"
    else if nat_eq n 8
    then "\\b"
    else if nat_eq n 9
    then "\\t"
    else if nat_eq n 10
    then "\\n"
    else if nat_eq n 12
    then "\\f"
    else if nat_eq n 13
    then "\\r"
    else if ltb n 32
    then "\\u00" ++ hex_digit (n / 16) ++ hex_digit (n % 16)
    else String.◌∷◌ c String.[]

escape_all : String → String
escape_all String.[] = ""
escape_all (String.◌∷◌ c s) = escape c ++ escape_all s

unfoldable pub quote : String → String
unfolding escape_all
quote s = "\"" ++ escape_all s ++ "\""

-- A number has at most as many digits as its value, plus one.
decimal_from : ℕ → ℕ → String
decimal_from zero n = ""
decimal_from (suc fuel) n = elim (ltb n 10) [
  | true ↦ slice "0123456789" n (n + 1)
  | false ↦ decimal_from fuel (n / 10) ++ slice "0123456789" (n % 10) (n % 10 + 1)
]

unfoldable pub decimal : ℕ → String
unfolding decimal_from
decimal n = decimal_from (suc n) n

abbrev number : Number → String
number (pos n) = decimal n
number (negsuc n) = "-" ++ decimal (suc n)

-- `parts.join(separator)`.
unfoldable pub join : String → List String → String
join separator [] = ""
join separator (s ∷ []) = s
join separator (s ∷ t ∷ rest) = s ++ separator ++ join separator (t ∷ rest)

unfoldable mutual
  unfolding quote decimal join

  pub stringify : Json → String
  stringify null = "null"
  stringify (bool true) = "true"
  stringify (bool false) = "false"
  stringify (num n) = number n
  stringify (str s) = quote s
  stringify (arr items) = "[" ++ join "," (stringify_items items) ++ "]"
  stringify (obj fields) = "{" ++ join "," (stringify_fields fields) ++ "}"

  pub stringify_items : Items → List String
  stringify_items nil = []
  stringify_items (cons v rest) = stringify v ∷ stringify_items rest

  pub stringify_fields : Fields → List String
  stringify_fields end = []
  stringify_fields (field k v rest) = (quote k ++ ":" ++ stringify v) ∷ stringify_fields rest

-- `Object.keys(obj).sort()`, carrying the text of each member along. The order is that of code
-- points, which is that of UTF-16 units for keys in the basic plane.
unfoldable pub insert_key : String → String → List (String × String) → List (String × String)
insert_key k text [] = (k, text) ∷ []
insert_key k text ((j, other) ∷ rest) = elim (is_le (compare k j)) [
  | true ↦ (k, text) ∷ (j, other) ∷ rest
  | false ↦ (j, other) ∷ insert_key k text rest
]

members : List (String × String) → List String
members [] = []
members ((k, text) ∷ rest) = (quote k ++ ":" ++ text) ∷ members rest

-- Arrays and scalars go to `JSON.stringify` whole; only objects reached through objects have
-- their keys sorted.
unfoldable mutual
  unfolding insert_key members join quote

  pub canonical_json : Json → String
  canonical_json (obj fields) = "{" ++ join "," (members (canonical_fields fields)) ++ "}"
  canonical_json null = stringify null
  canonical_json (bool b) = stringify (bool b)
  canonical_json (num n) = stringify (num n)
  canonical_json (str s) = stringify (str s)
  canonical_json (arr items) = stringify (arr items)

  pub canonical_fields : Fields → List (String × String)
  canonical_fields end = []
  canonical_fields (field k v rest) = insert_key k (canonical_json v) (canonical_fields rest)
