-- ===== src/Clients/Completed.antt =====
-- When a dispatch to another rail counts as completed.
use helpan_ai.Prelude.{
  ℕ, ◌≤◌, String, Bool, true, false, Option, none, some, ◌≡◌, refl, ◌⊎◌, inl, inr, arith, ◌==◌,
  ◌or_else◌, if◌then◌else◌,
}
use helpan_ai.Json.{Json}
use helpan_ai.World.{World}
use helpan_ai.Actions.Types.{DispatchInput, DispatchOutcome, completed}
use helpan_ai.Clients.Http.{
  ParsedUrl, RailRequest, RailAnswer, aborted, unreachable, answered, HttpDeps, is_ok_status,
}
use helpan_ai.Clients.Dispatcher.{
  HttpDispatcherConfig, rail_prefix, dispatch_body, dispatch_request, dispatch_url, send,
  outcome_of, http_dispatch, unconfigured_dispatch, extract_data,
}
use helpan_ai.Clients.Registry.{
  OutboundRailConfig, OutboundDispatch, http_config, is_unconfigured, pick_dispatcher,
  production_dispatch,
}

-- The rail answered a call of the input with 2xx, and what it sent is the result.
abbrev pub IsAccepted : (RailRequest → RailAnswer) → DispatchInput → Json → Type 0
IsAccepted fetch input result =
    (request : RailRequest) × (status : ℕ) × (parsed : Option Json) × (fetch request
      ≡ answered status parsed)
    × (200 ≤ status)
    × (status ≤ 299)
    × (request.body ≡ dispatch_body input)
    × (request.delegated_authority ≡ some input.delegated_authority_jwt)
    × (request.idempotency_key ≡ input.idempotency_key)
    × (result ≡ extract_data parsed)

either :
    (test : Bool) (x y z : DispatchOutcome)
    → (if test then x else y) ≡ z
    → ((test ≡ true) × (x ≡ z)) ⊎ (y ≡ z)
either true x y z h = inl (refl, h)
either false x y z h = inr h

outcome_of-completed :
    (rail : String) (latency : ℕ) (answer : RailAnswer) (result : Json) (took : ℕ)
    → outcome_of rail latency answer ≡ completed result took
    → (status : ℕ) × (parsed : Option Json) × (answer ≡ answered status parsed)
      × (200 ≤ status)
      × (status ≤ 299)
      × (result ≡ extract_data parsed)
unfolding outcome_of
outcome_of-completed rail latency (aborted message) result took h = absurd (cc)
outcome_of-completed rail latency (unreachable message) result took h = absurd (cc)
outcome_of-completed rail latency (answered status parsed) result took h =
    elim (either (is_ok_status status) _ _ (completed result took) h) [
      | inl (fine, same) ↦ (status, parsed, refl, ground (arith, fine), ground (arith, fine), cc)
      | inr other ↦ absurd (cc)
    ]

module _ (w : World) (deps : HttpDeps) (sent_at latency : ℕ) (input : DispatchInput) (result : Json)
    (took : ℕ) where
  send-completed :
      (config : HttpDispatcherConfig) (url : Option ParsedUrl)
      → send w deps config sent_at latency input url ≡ completed result took
      → IsAccepted deps.fetch input result
  unfolding dispatch_request
  send-completed config none h = absurd (cc)
  send-completed config (some url) h =
      let request =
        dispatch_request w deps config (rail_prefix config.rail or_else "undefined") sent_at url
          input in
      let (status, parsed, answer, low, high, same) =
        outcome_of-completed config.rail latency (deps.fetch request) result took h in
      (request, status, parsed, answer, low, high, refl, refl, refl, same)

  pick_dispatcher-completed :
      (rail : String) (per_rail : OutboundRailConfig)
      → pick_dispatcher w deps sent_at latency rail per_rail input ≡ completed result took
      → IsAccepted deps.fetch input result
  unfolding pick_dispatcher unconfigured_dispatch http_dispatch
  pick_dispatcher-completed rail per_rail h =
      elim (either (is_unconfigured per_rail) _ _ (completed result took) h) [
        | inl (unset, same) ↦ absurd (cc)
        | inr sent ↦
            send-completed (http_config rail per_rail)
              (dispatch_url deps (http_config rail per_rail) input) sent
      ]

  -- Where the production dispatchers return completed for an input, the answer to a request with
  -- the input's body, delegated authority and idempotency key was 2xx, and the result is what that
  -- answer's envelope holds.
  pub production_dispatch-completed :
      (config : OutboundDispatch)
      → production_dispatch w deps sent_at latency config input ≡ completed result took
      → IsAccepted deps.fetch input result
  unfolding production_dispatch
  production_dispatch-completed config h =
      elim (either (input.target_rail == "kipkiren_pay") _ _ _ h) [
        | inl (_, sent) ↦ pick_dispatcher-completed "kipkiren_pay" config.kipkiren_pay sent
        | inr h1 ↦ elim (either (input.target_rail == "todoku") _ _ _ h1) [
          | inl (_, sent) ↦ pick_dispatcher-completed "todoku" config.todoku sent
          | inr h2 ↦ elim (either (input.target_rail == "identiti") _ _ _ h2) [
            | inl (_, sent) ↦ pick_dispatcher-completed "identiti" config.identiti sent
            | inr h3 ↦ elim (either (input.target_rail == "klokd") _ _ _ h3) [
              | inl (_, sent) ↦ pick_dispatcher-completed "klokd" config.klokd sent
              | inr threw ↦ absurd (cc)
            ]
          ]
        ]
      ]
