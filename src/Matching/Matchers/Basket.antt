-- ===== src/Matching/Matchers/Basket.antt =====
-- What a basket that matches keeps to.
use helpan_ai.Prelude.{
  String, true, false, not, ◌&&◌, Option, none, some, List, ◌≡◌, refl, ◌⊎◌, inl, inr, arith, ◌==◌,
  Option-cases, if◌then◌else◌,
}
use helpan_ai.Json.{Number, Json, obj, Items, nil, cons, Fields, get_field}
use helpan_ai.Matching.Types.{
  Check, passed, refused, thrown, ◌>>=◌, num_lt, truthy, as_number, js_string, is_inherited,
}
use helpan_ai.Matching.Conditions.{check_ceiling}

module _ {ℓ} {A B : Type ℓ} where
  pub bind-eq-passed :
      (c : Check A) (f : A → Check B) (b : B)
      → (c >>= f) ≡ passed b
      → (a : A) × (c ≡ passed a) × (f a ≡ passed b)
  bind-eq-passed (passed a) f b h = (a, refl, h)
  bind-eq-passed refused f b h = absurd (cc)
  bind-eq-passed (thrown e) f b h = absurd (cc)

-- The ceiling of the last item of the briefing with this SKU, if one has it.
abbrev ceiling_at : Option Json → Option Json → String → Option (Option Json)
ceiling_at none ceiling sku = none
ceiling_at (some v) ceiling sku =
    if truthy (some v) && (not (js_string v == "__proto__") && js_string v == sku)
    then some ceiling
    else none

abbrev item_ceiling : Json → String → Option (Option Json)
item_ceiling (obj fields) sku =
    ceiling_at (get_field "sku" fields) (get_field "max_price_minor" fields) sku
item_ceiling _ sku = none

abbrev later_or : Option (Option Json) → Option (Option Json) → Option (Option Json)
later_or none first = first
later_or (some c) first = some c

unfoldable pub listed_ceiling : Items → String → Option (Option Json)
listed_ceiling nil sku = none
listed_ceiling (cons v rest) sku = later_or (listed_ceiling rest sku) (item_ceiling v sku)

-- The SKU has a ceiling in the briefing, or is a name that every object inherits, with no ceiling.
abbrev pub HasCeiling : Items → String → Option Json → Type 0
HasCeiling items sku c =
    (listed_ceiling items sku ≡ some c)
    ⊎ ((listed_ceiling items sku ≡ none) × (is_inherited sku ≡ true) × (c ≡ none))

-- A line of the basket whose SKU the briefing lists, at a price within the ceiling, if that is a
-- number.
abbrev pub IsListedLine : Items → Fields → Type 0
IsListedLine items line =
    (sku : Json) × (get_field "sku" line ≡ some sku)
    × (truthy (some sku) ≡ true)
    × (c : Option Json) × HasCeiling items (js_string sku) c
    × ((n : Number)
        → as_number c ≡ some n
        → (price : Number) × (as_number (get_field "price_minor" line) ≡ some price)
          × (num_lt n price ≡ false))

abbrev pub AllLines : (Fields → Type 0) → Items → Type 0
AllLines P nil = Unit
AllLines P (cons (obj line) rest) = P line × AllLines P rest
AllLines P (cons _ rest) = ⊥

pub check_ceiling-le :
    (limit value : Option Json) (reason : String) (reasons : List String) (l : Number)
    → check_ceiling limit value reason ≡ passed reasons
    → as_number limit ≡ some l
    → (v : Number) × (as_number value ≡ some v) × (num_lt l v ≡ false)
check_ceiling-le limit value reason reasons l h e = elim (Option-cases (as_number value)) [
  | inl missing ↦ absurd (ground (arith, e, missing, h))
  | inr (v, given) ↦ (v, given, ground (arith, e, given, h))
]
