-- ===== src/Application/Measurement/Laws.antt =====
-- src/application/measurement.rs: the savings that reach telemetry.
use tokensaver.Prelude.{ℕ, ◌≡◌, ap, ◌⊎◌, inl, inr, Option, none, Str}
use tokensaver.Aging.Model.{AgingPolicy}
use tokensaver.Telemetry.Model
use tokensaver.Transport.Json.{Json}
use tokensaver.Transport.Compression.{Bytes, Codecs}
use tokensaver.Transport.Request.{PreparedRequestBody, prepare_responses_body}
use tokensaver.Transport.Request.Savings.{prepare-IsHonest}
use tokensaver.Transport.Usage.{ProviderUsageObservation}
use tokensaver.Application.Measurement.{
  TransportObservation, event_from_transport_observation, outcome_of_preparation,
}

-- src/modules/transport/server.rs: what is observed of a prepared body, with the usage that the
-- response reports later
abbrev pub observation_of :
    PreparedRequestBody → Option ProviderUsageObservation → TransportObservation
observation_of p usage = record {
  outcome = p.outcome;
  aging_stats = p.aging.stats;
  request = p.diagnostics;
  provider_usage = usage;
}

-- The event of a request reports a compacted result or saved bytes only under the outcome `aged`.
pub event_from_transport_observation-prepare :
    (json : Json) (codecs : Codecs) (sha256_hex : Str → Str) (body : Bytes) (encoding : Option Str)
    (path : Str) (policy : AgingPolicy) (usage : Option ProviderUsageObservation)
    (observed_at session : ℕ)
    → let event =
        event_from_transport_observation observed_at session
          (observation_of
            (prepare_responses_body json codecs sha256_hex body encoding path policy)
            usage)
          none in
      (event.outcome ≡ Model.aged)
      ⊎ ((event.metrics.tool_results_compacted ≡ 0) × (event.metrics.bytes_saved ≡ 0))
unfolding event_from_transport_observation
event_from_transport_observation-prepare json codecs sha256_hex body encoding path policy usage
      observed_at session =
    elim (prepare-IsHonest json codecs sha256_hex body encoding path policy) [
      | inl rewritten ↦ inl (ap outcome_of_preparation rewritten)
      | inr idle ↦ inr idle
    ]
