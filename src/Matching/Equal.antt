-- ===== src/Matching/Equal.antt =====
-- `jsonEqual` and `payloadCoversMatchPredicate` of src/lib/matching/engine.ts.
use helpan_ai.Prelude.{ℕ, suc, Bool, true, false, ◌&&◌, some, none, nat_eq}
use helpan_ai.Json.{
  Json, null, bool, num, str, arr, obj, Items, nil, cons, Fields, end, field, get_field,
}
use helpan_ai.Matching.Types.{strict_equal}

-- `Object.keys(o).length`.
abbrev pub length_fields : Fields → ℕ
length_fields end = 0
length_fields (field k v rest) = suc (length_fields rest)

unfoldable mutual
  pub json_equal : Json → Json → Bool
  json_equal (arr vs) (arr bs) = equal_items vs bs
  json_equal (obj ao) (obj bo) = nat_eq (length_fields ao) (length_fields bo) && fields_within ao bo
  json_equal null b = strict_equal null b
  json_equal (bool a) b = strict_equal (bool a) b
  json_equal (num a) b = strict_equal (num a) b
  json_equal (str a) b = strict_equal (str a) b
  json_equal (arr vs) b = false
  json_equal (obj ao) b = false

  pub equal_items : Items → Items → Bool
  equal_items nil nil = true
  equal_items (cons a vs) (cons b bs) = json_equal a b && equal_items vs bs
  equal_items nil (cons b bs) = false
  equal_items (cons a vs) nil = false

  -- Each key of the one is an own key of the other, with an equal value.
  pub fields_within : Fields → Fields → Bool
  fields_within end bo = true
  fields_within (field k v rest) bo = elim (get_field k bo) [
    | none ↦ false
    | some w ↦ json_equal v w && fields_within rest bo
  ]

unfoldable pub payload_covers_match_predicate : Fields → Fields → Bool
unfolding json_equal
payload_covers_match_predicate payload end = true
payload_covers_match_predicate payload (field key expected rest) = elim (get_field key payload) [
  | none ↦ false
  | some v ↦ json_equal v expected && payload_covers_match_predicate payload rest
]
