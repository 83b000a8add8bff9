-- ===== src/Tests/Probes.antt =====
-- The deep health of a service whose probes all come back.
use helpan_ai.Prelude.{true, false, [], ◌∷◌, ◌≡◌, refl}
use helpan_ai.Health.{ComponentStatus, Component, DeepHealthDeps, roll_up, gather_deep_health}

abbrev all_back : DeepHealthDeps
all_back = record {
  database = true;
  briefings = true;
  events_ingested = true;
  delegated_authorities = true;
  has_kafka_producer = true;
}

never_ok : (gather_deep_health all_back).ok ≡ false
unfolding gather_deep_health
never_ok = refl

abbrev slow : Component
slow = record { name = "kafka"; status = ComponentStatus.degraded }

abbrev fine : Component
fine = record { name = "database"; status = ComponentStatus.healthy }

degraded_stays : roll_up (fine ∷ slow ∷ fine ∷ []) ≡ ComponentStatus.degraded
unfolding roll_up
degraded_stays = refl
