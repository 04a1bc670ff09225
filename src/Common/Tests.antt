-- ===== src/Common/Tests.antt =====
-- Runs of the shared package's theorems.
use sentinel_chain.Base.{ℕ, ◌+◌, ◌≡◌, ◌↔◌, String, true, [], ◌∷◌}
use sentinel_chain.Base.Result.{ok, err}
use sentinel_chain.Samples.{micro}
use sentinel_chain.Samples.Envelopes.{strict, strict_laws, sample_envelope}
use sentinel_chain.Common.Avro.{envelope_to_avro}
use sentinel_chain.Common.Avro.RoundTrip.{through, envelope_from_avro-envelope_to_avro}
use sentinel_chain.Common.Health.{HealthRegistry, ready}
use sentinel_chain.Common.Health.Readiness.{names, AllPass, ready-AllPass}

envelope_from_avro-envelope_to_avro_example :
    through strict (envelope_to_avro micro sample_envelope) ≡ ok (ok sample_envelope)
envelope_from_avro-envelope_to_avro_example =
    envelope_from_avro-envelope_to_avro strict strict_laws sample_envelope

-- One check passes, and the other raises.
abbrev half_ready : HealthRegistry String ℕ
half_ready = record {
  checks = ("kafka", λ n. (ok true, n + 1)) ∷ ("redis", λ n. (err "refused", n + 1)) ∷ [];
}

ready-AllPass_example :
    (names (ready half_ready 0).0.1 ≡ "kafka" ∷ "redis" ∷ [])
    × (((ready half_ready 0).0.0 ≡ true) ↔ AllPass half_ready.checks 0)
ready-AllPass_example = ready-AllPass half_ready 0
