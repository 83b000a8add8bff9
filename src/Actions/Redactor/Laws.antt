-- ===== src/Actions/Redactor/Laws.antt =====
-- What the redactor's output can hold.
use helpan_ai.Prelude.{
  ℕ, suc, ◌≤◌, String, false, ◌≡◌, refl, ap, arith, ◌⊎◌, inl, inr, ◌==◌, leb, if◌then◌else◌,
  Bool-cases,
}
use helpan_ai.Json.{Json, null, bool, num, str, arr, obj, Items, nil, cons, Fields, end, field}
use helpan_ai.Actions.Redactor.{
  redact_string, max_depth, set_field, redact_value, redact_items, redact_fields, redact_payload,
  wrapped,
}
use helpan_ai.Actions.Redactor.Texts.{
  is_pii_key, is_email, is_pan, is_phone, without_spaces, utf16_length, is_space, is_digit,
}

-- No text in the output is one that the expressions recognise.
abbrev pub IsCleanText : String → Type 0
IsCleanText s =
    (utf16_length s ≤ 4096)
    × (is_email s ≡ false)
    × (is_pan (without_spaces s) ≡ false)
    × (is_phone s ≡ false)

clean_marks :
    IsCleanText "[REDACTED:large_string]"
    × IsCleanText "[REDACTED:email]"
    × IsCleanText "[REDACTED:pan]"
    × IsCleanText "[REDACTED:phone]"
    × IsCleanText "[REDACTED]"
    × IsCleanText "[DEEP]"
unfolding is_email is_pan is_phone without_spaces utf16_length is_space is_digit
clean_marks = (
  (omega arith, refl, refl, refl),
  (omega arith, refl, refl, refl),
  (omega arith, refl, refl, refl),
  (omega arith, refl, refl, refl),
  (omega arith, refl, refl, refl),
  (omega arith, refl, refl, refl),
)

redact_string-IsCleanText : (s : String) → IsCleanText (redact_string s)
unfolding redact_string
redact_string-IsCleanText s = ground (arith, clean_marks)

redact_string-eq_self : (s : String) → IsCleanText s → redact_string s ≡ s
unfolding redact_string
redact_string-eq_self s h = ground arith

deep_key : is_pii_key "_redacted" ≡ false
unfolding is_pii_key
deep_key = refl

-- Every text is clean, and under a key that names personal data stands the mark.
mutual
  pub IsClean : Json → Type 0
  IsClean null = Unit
  IsClean (bool b) = Unit
  IsClean (num n) = Unit
  IsClean (str s) = IsCleanText s
  IsClean (arr items) = AreClean items
  IsClean (obj fields) = HasCleanFields fields

  pub AreClean : Items → Type 0
  AreClean nil = Unit
  AreClean (cons v rest) = IsClean v × AreClean rest

  pub HasCleanFields : Fields → Type 0
  HasCleanFields end = Unit
  HasCleanFields (field k v rest) =
      ((is_pii_key k ≡ false) ⊎ (v ≡ str "[REDACTED]")) × IsClean v × HasCleanFields rest

set_field-clean :
    (k : String) (v : Json) (rest : Fields)
    → (is_pii_key k ≡ false) ⊎ (v ≡ str "[REDACTED]")
    → IsClean v
    → HasCleanFields rest
    → HasCleanFields (set_field k v rest)
unfolding HasCleanFields
set_field-clean k v rest mark h r = elim (Bool-cases (k == "__proto__")) [
  | inl proto ↦ rw proto r
  | inr other ↦ rw other (mark, h, r)
]

kept_or_marked :
    (k : String) (v : Json)
    → IsClean v
    → ((is_pii_key k ≡ false) ⊎ ((if is_pii_key k then str "[REDACTED]" else v) ≡ str "[REDACTED]"))
      × IsClean (if is_pii_key k then str "[REDACTED]" else v)
unfolding IsClean
kept_or_marked k v h = elim (Bool-cases (is_pii_key k)) [
  | inl pii ↦ rw pii (inr refl, clean_marks.4)
  | inr other ↦ rw other (inl refl, h)
]

mutual
  unfolding redact_value redact_items redact_fields IsClean AreClean HasCleanFields

  redact_value-IsClean : (depth : ℕ) (v : Json) → IsClean (redact_value depth v)
  redact_value-IsClean depth null = tt
  redact_value-IsClean depth (bool b) = tt
  redact_value-IsClean depth (num n) = tt
  redact_value-IsClean depth (str s) = redact_string-IsCleanText s
  redact_value-IsClean depth (arr items) = redact_items-AreClean (suc depth) items
  redact_value-IsClean depth (obj fields) = elim (Bool-cases (leb max_depth depth)) [
    | inl limit ↦ rw limit (inl deep_key, clean_marks.5, tt)
    | inr within ↦ rw within (redact_fields-clean (suc depth) fields)
  ]

  redact_items-AreClean : (depth : ℕ) (items : Items) → AreClean (redact_items depth items)
  redact_items-AreClean depth nil = tt
  redact_items-AreClean depth (cons v rest) =
      (redact_value-IsClean depth v, redact_items-AreClean depth rest)

  redact_fields-clean : (depth : ℕ) (fields : Fields) → HasCleanFields (redact_fields depth fields)
  redact_fields-clean depth end = tt
  redact_fields-clean depth (field k v rest) =
      let (mark, kept) = kept_or_marked k (redact_value depth v) (redact_value-IsClean depth v) in
      set_field-clean k _ (redact_fields depth rest) mark kept (redact_fields-clean depth rest)

value_key : is_pii_key "value" ≡ false
unfolding is_pii_key
value_key = refl

wrapped-IsClean : (v : Json) → IsClean v → IsClean (wrapped v)
unfolding IsClean HasCleanFields
wrapped-IsClean null h = (inl value_key, h, tt)
wrapped-IsClean (bool b) h = (inl value_key, h, tt)
wrapped-IsClean (num n) h = (inl value_key, h, tt)
wrapped-IsClean (str s) h = (inl value_key, h, tt)
wrapped-IsClean (arr items) h = (inl value_key, h, tt)
wrapped-IsClean (obj fields) h = h

-- In what is stored no text value is longer than 4096 units or reads as an e-mail address, a card
-- number or a phone number, and at every depth a key that names personal data has the mark for its
-- value. The texts of keys are not looked at.
pub redact_payload-IsClean : (payload : Json) → IsClean (redact_payload payload)
unfolding redact_payload
redact_payload-IsClean payload =
    wrapped-IsClean (redact_value 0 payload) (redact_value-IsClean 0 payload)

set_field_twice :
    (depth : ℕ) (k : String) (v : Json) (rest : Fields)
    → redact_value depth v ≡ v
    → redact_fields depth rest ≡ rest
    → redact_fields depth (set_field k (if is_pii_key k then str "[REDACTED]" else v) rest)
      ≡ set_field k (if is_pii_key k then str "[REDACTED]" else v) rest
unfolding redact_fields
set_field_twice depth k v rest kept h = elim (Bool-cases (k == "__proto__")) [
  | inl proto ↦ rw proto h
  | inr other ↦ elim (Bool-cases (is_pii_key k)) [
    | inl pii ↦ rw (pii, other) (rw (pii, other) (ap (field k (str "[REDACTED]")) h))
    | inr public ↦ rw (public, other) (rw (public, other) (cc (kept, h)))
  ]
]

mutual
  unfolding redact_value redact_items redact_fields

  redact_value_twice :
      (depth : ℕ) (v : Json) → redact_value depth (redact_value depth v) ≡ redact_value depth v
  redact_value_twice depth null = refl
  redact_value_twice depth (bool b) = refl
  redact_value_twice depth (num n) = refl
  redact_value_twice depth (str s) =
      ap str (redact_string-eq_self (redact_string s) (redact_string-IsCleanText s))
  redact_value_twice depth (arr items) = ap arr (redact_items_twice (suc depth) items)
  redact_value_twice depth (obj fields) = elim (Bool-cases (leb max_depth depth)) [
    | inl limit ↦ rw limit refl
    | inr within ↦ rw within (ap obj (redact_fields_twice (suc depth) fields))
  ]

  redact_items_twice :
      (depth : ℕ) (items : Items)
      → redact_items depth (redact_items depth items) ≡ redact_items depth items
  redact_items_twice depth nil = refl
  redact_items_twice depth (cons v rest) =
      cc (redact_value_twice depth v, redact_items_twice depth rest)

  redact_fields_twice :
      (depth : ℕ) (fields : Fields)
      → redact_fields depth (redact_fields depth fields) ≡ redact_fields depth fields
  redact_fields_twice depth end = refl
  redact_fields_twice depth (field k v rest) =
      set_field_twice depth k (redact_value depth v) (redact_fields depth rest)
        (redact_value_twice depth v) (redact_fields_twice depth rest)

-- Redacting an object that is redacted already changes nothing.
pub redact_payload_twice :
    (fields : Fields) → redact_payload (redact_payload (obj fields)) ≡ redact_payload (obj fields)
unfolding redact_payload redact_value
redact_payload_twice fields = redact_value_twice 0 (obj fields)
