-- ===== src/Tests/Matches.antt =====
-- Matchers at concrete inputs.
use helpan_ai.Prelude.{ℕ, ◌+◌, ◌*◌, ◌/◌, ◌<◌, String, false, none, some, ◌≡◌, refl}
use helpan_ai.Json.{
  Number, pos, Json, str, arr, obj, Items, nil, cons, Fields, end, field, get_field, nat,
}
use helpan_ai.Matching.Types.{
  MatchableBriefing, MatchableEvent, MatchConfidence, BriefingMatch, Check, passed, num_lt,
  as_number,
}
use helpan_ai.Matching.Matchers.Chapaa.{match_round_up_briefing, round_unit}
use helpan_ai.Matching.Matchers.Discovery.{match_basket_refill_briefing}
use helpan_ai.Matching.Matchers.RoundUp.{match_round_up-next_multiple}

abbrev wish : Fields → MatchableBriefing
wish intent = record {
  id = "brf_1";
  account_uuid = "acc_1";
  app_id = "app_planner";
  briefing_type = "alert";
  intent = intent;
}

abbrev news : Fields → MatchableEvent
news payload = record {
  id = "evt_1";
  event_type = "TICK";
  app_id = "app_planner";
  account_uuid = none;
  payload = payload;
}

abbrev match_or : Check BriefingMatch → MatchableBriefing → BriefingMatch
match_or (passed m) b = m
match_or _ b = record {
  briefing_id = "";
  account_uuid = "";
  confidence = MatchConfidence.low;
  detail = end;
}

abbrev rounding : MatchableBriefing
rounding = wish (field "round_unit_minor" (nat 100) (field "max_round_up_minor" (nat 40) end))

abbrev debit : MatchableEvent
debit = news (field "amount_minor" (nat 265) end)

abbrev rounded : BriefingMatch
rounded = match_or (match_round_up_briefing rounding debit) rounding

rounds_up : match_round_up_briefing rounding debit ≡ passed rounded
unfolding match_round_up_briefing get_field
rounds_up = refl

match_round_up-next_multiple_example :
    let unit = round_unit rounding.intent in
    (amount : ℕ) × (round_up : ℕ) × (as_number (get_field "amount_minor" debit.payload)
      ≡ some (pos amount))
    × (get_field "computed_round_up_minor" rounded.detail ≡ some (nat round_up))
    × (amount + round_up ≡ amount / unit * unit + unit)
    × (0 < amount)
    × (0 < round_up)
    × (round_up < unit)
    × ((most : Number)
        → as_number (get_field "max_round_up_minor" rounding.intent) ≡ some most
        → num_lt most (pos round_up) ≡ false)
match_round_up-next_multiple_example = match_round_up-next_multiple rounding debit rounded rounds_up

abbrev item : String → ℕ → Json
item sku ceiling = obj (field "sku" (str sku) (field "max_price_minor" (nat ceiling) end))

abbrev line : String → ℕ → Json
line sku price = obj (field "sku" (str sku) (field "price_minor" (nat price) end))

abbrev allowed : Items
allowed = cons (item "milk" 120) (cons (item "eggs" 300) nil)

abbrev refill : MatchableBriefing
refill = wish (field "items" (arr allowed) (field "max_total_minor" (nat 500) end))

abbrev basket : MatchableEvent
basket = news (
    field "line_items" (arr (cons (line "eggs" 290) (cons (line "milk" 120) nil)))
      (field "total_minor" (nat 410) end))

abbrev filled : BriefingMatch
filled = match_or (match_basket_refill_briefing refill basket) refill

-- A line whose SKU is no item of the briefing, but a name that every object inherits.
abbrev smuggled : MatchableEvent
smuggled = news (
    field "line_items" (arr (cons (line "constructor" 9_000) nil))
      (field "total_minor" (nat 410) end))

smuggled_matches :
    match_basket_refill_briefing refill smuggled
    ≡ passed (match_or (match_basket_refill_briefing refill smuggled) refill)
unfolding match_basket_refill_briefing get_field
smuggled_matches = refl
