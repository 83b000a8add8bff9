-- ===== src/Actions/Redactor.antt =====
-- src/modules/actions/payloadRedactor.ts.
pub mod Texts
pub mod Laws
use helpan_ai.Prelude.{ℕ, suc, ◌+◌, String, ◌==◌, leb, if◌then◌else◌}
use helpan_ai.Json.{Json, null, bool, num, str, arr, obj, Items, nil, cons, Fields, end, field}
use Texts.{is_pii_key, is_email, is_pan, is_phone, without_spaces, utf16_length}

unfoldable pub redact_string : String → String
redact_string s =
    if leb 4097 (utf16_length s)
    then "[REDACTED:large_string]"
    else if is_email s
    then "[REDACTED:email]"
    else if is_pan (without_spaces s)
    then "[REDACTED:pan]"
    else if is_phone s
    then "[REDACTED:phone]"
    else s

abbrev pub max_depth : ℕ
max_depth = 6

abbrev pub deep : Fields
deep = field "_redacted" (str "[DEEP]") end

-- `out[k] = v` sets the prototype where k is `__proto__`, and adds no key.
abbrev pub set_field : String → Json → Fields → Fields
set_field k v rest = if k == "__proto__" then rest else field k v rest

-- An object at the depth limit is replaced whole; arrays are entered at any depth.
unfoldable mutual
  unfolding redact_string

  pub redact_value : ℕ → Json → Json
  redact_value depth null = null
  redact_value depth (bool b) = bool b
  redact_value depth (num n) = num n
  redact_value depth (str s) = str (redact_string s)
  redact_value depth (arr items) = arr (redact_items (suc depth) items)
  redact_value depth (obj fields) =
      let out = redact_fields (suc depth) fields in obj (if leb max_depth depth then deep else out)

  pub redact_items : ℕ → Items → Items
  redact_items depth nil = nil
  redact_items depth (cons v rest) = cons (redact_value depth v) (redact_items depth rest)

  -- The entries of one object, whose values stand at `depth`.
  pub redact_fields : ℕ → Fields → Fields
  redact_fields depth end = end
  redact_fields depth (field k v rest) =
      let kept = redact_value depth v in
      set_field k (if is_pii_key k then str "[REDACTED]" else kept) (redact_fields depth rest)

abbrev wrapped : Json → Json
wrapped (obj fields) = obj fields
wrapped v = obj (field "value" v end)

-- A payload that is no object is wrapped into one.
unfoldable pub redact_payload : Json → Json
redact_payload input = wrapped (redact_value 0 input)
