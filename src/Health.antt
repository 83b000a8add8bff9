-- ===== src/Health.antt =====
-- src/modules/health/service.ts.
use helpan_ai.Prelude.{String, Bool, true, false, List, [], ◌∷◌}

pub data ComponentStatus : Type 0 where
  healthy degraded unavailable : ComponentStatus

-- The probes: whether each statement comes back within its time, and whether there is a producer.
pub record DeepHealthDeps : Type 0 where
  pub database : Bool
  pub briefings : Bool
  pub events_ingested : Bool
  pub delegated_authorities : Bool
  pub has_kafka_producer : Bool

pub record Component : Type 0 where
  pub name : String
  pub status : ComponentStatus

pub record DeepHealthResponse : Type 0 where
  pub ok : Bool
  pub status : ComponentStatus
  pub components : List Component

abbrev probe : Bool → ComponentStatus
probe true = ComponentStatus.healthy
probe false = ComponentStatus.unavailable

-- The loop of `rollUp`, from the worst status so far.
unfoldable pub roll_up_from : ComponentStatus → List Component → ComponentStatus
roll_up_from worst [] = worst
roll_up_from worst (c ∷ cs) = elim c.status [
  | ComponentStatus.unavailable ↦ ComponentStatus.unavailable
  | ComponentStatus.degraded ↦ roll_up_from ComponentStatus.degraded cs
  | ComponentStatus.healthy ↦ roll_up_from worst cs
]

unfoldable pub roll_up : List Component → ComponentStatus
unfolding roll_up_from
roll_up components = roll_up_from ComponentStatus.healthy components

abbrev is_healthy : ComponentStatus → Bool
is_healthy ComponentStatus.healthy = true
is_healthy _ = false

abbrev component : String → ComponentStatus → Component
component name status = record { name = name; status = status }

unfoldable pub components_of : DeepHealthDeps → List Component
components_of deps =
    component "database" (probe deps.database)
    ∷ component "briefings" (probe deps.briefings)
    ∷ component "events_ingest" (probe deps.events_ingested)
    ∷ component "authorities" (probe deps.delegated_authorities)
    ∷ component "kafka" (probe deps.has_kafka_producer)
    ∷ component "identiti" ComponentStatus.unavailable
    ∷ component "kipkiren_pay" ComponentStatus.unavailable
    ∷ component "todoku" ComponentStatus.unavailable
    ∷ component "llm_provider" ComponentStatus.unavailable
    ∷ []

unfoldable pub gather_deep_health : DeepHealthDeps → DeepHealthResponse
unfolding roll_up components_of
gather_deep_health deps =
    let components = components_of deps in
    let status = roll_up components in
    record { ok = is_healthy status; status = status; components = components }
