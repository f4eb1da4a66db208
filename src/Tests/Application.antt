-- ===== src/Tests/Application.antt =====
-- A run of src/application/measurement.rs: the event of a request under a policy that is off.
use tokensaver.Prelude.{◌≡◌, ◌⊎◌, false, none, [], ◌∷◌, Str, codes}
use tokensaver.Aging.Model.{AgingPolicy}
use tokensaver.Telemetry.Model
use tokensaver.Transport.Request.{prepare_responses_body}
use tokensaver.Application.Measurement.{event_from_transport_observation}
use tokensaver.Application.Measurement.Laws.{
  observation_of, event_from_transport_observation-prepare,
}
use tokensaver.Tests.Document.{documents, plain_codecs}

abbrev no_hash : Str → Str
no_hash value = codes "00"

abbrev off : AgingPolicy
off = record { enabled = false; min_bytes = 100; frontier = 0; preview_code_units = 64 }

abbrev path : Str
path = codes "/v1/responses"

event_from_transport_observation-prepare_example :
    let event =
      event_from_transport_observation 1000 7
        (observation_of
          (prepare_responses_body documents plain_codecs no_hash (1 ∷ []) none path off)
          none)
        none in
    (event.outcome ≡ Model.aged)
    ⊎ ((event.metrics.tool_results_compacted ≡ 0) × (event.metrics.bytes_saved ≡ 0))
event_from_transport_observation-prepare_example =
    event_from_transport_observation-prepare documents plain_codecs no_hash (1 ∷ []) none path off
      none 1000 7
