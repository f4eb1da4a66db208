-- ===== src/Application/Measurement.antt =====
-- src/application/measurement.rs: from the result of an aging pass, or the observation of a
-- request, to the event that telemetry records.
pub mod Laws
use tokensaver.Prelude.{ℕ, max, Bool, not, Option, none, some, ltb, if◌then◌else◌}
use tokensaver.Aging.Engine.{AgingResult, AgingStats}
use tokensaver.Telemetry.Model.{
  OptimizationEvent, OptimizationMetrics, OptimizationOutcome, ProviderUsage, bypassed,
}
use tokensaver.Telemetry.Model
use tokensaver.Transport.Request.{
  PreparationOutcome, disabled, compaction_bypass, native_passthrough, fail_original,
  evaluated_no_eligible_result, evaluated_no_savings, aged,
}
use tokensaver.Transport.Request.Diagnostics.{RequestDiagnostics}
use tokensaver.Transport.Usage.{ProviderUsageObservation}

pub data OptimizationRunState : Type 0 where
  run_disabled run_bypassed run_evaluated : OptimizationRunState

-- src/modules/transport/observation.rs
pub record TransportObservation : Type 0 where
  pub outcome : PreparationOutcome
  pub aging_stats : AgingStats
  pub request : Option RequestDiagnostics
  pub provider_usage : Option ProviderUsageObservation

-- `diagnostics.map_or(0, field)`
count_of : (RequestDiagnostics → ℕ) → Option RequestDiagnostics → ℕ
count_of field none = 0
count_of field (some value) = field value

-- `diagnostics.is_some_and(test) as u64`
flag_of : (RequestDiagnostics → Bool) → Option RequestDiagnostics → ℕ
flag_of test none = 0
flag_of test (some value) = if test value then 1 else 0

build_event :
    ℕ
    → ℕ
    → OptimizationOutcome
    → AgingStats
    → Option RequestDiagnostics
    → Option ProviderUsage
    → OptimizationEvent
unfolding count_of flag_of
build_event observed_at_epoch_ms session_id outcome stats diagnostics provider_usage = record {
  observed_at_epoch_ms = observed_at_epoch_ms;
  session_id = session_id;
  outcome = outcome;
  metrics = record {
    tool_results_evaluated = stats.tool_results_evaluated;
    tool_results_eligible = stats.tool_results_eligible;
    tool_results_compacted = stats.tool_results_aged;
    largest_tool_result_bytes =
        max stats.largest_tool_result_bytes
          (count_of (λ v. v.largest_textual_tool_result_bytes) diagnostics);
    protected_frontier = count_of (λ v. v.protected_frontier) diagnostics;
    unsupported_output = count_of (λ v. v.unsupported_output) diagnostics;
    at_or_below_threshold = count_of (λ v. v.at_or_below_threshold) diagnostics;
    unconsumed = count_of (λ v. v.unconsumed) diagnostics;
    receipt_not_smaller = count_of (λ v. v.receipt_not_smaller) diagnostics;
    responses_with_previous_response_id = flag_of (λ v. v.has_previous_response_id) diagnostics;
    responses_without_previous_response_id =
        flag_of (λ v. not v.has_previous_response_id) diagnostics;
    previous_response_id_preserved = flag_of (λ v. v.previous_response_id_preserved) diagnostics;
    aging_pass_ran = flag_of (λ v. v.aging_pass_ran) diagnostics;
    input_items = count_of (λ v. v.input_items) diagnostics;
    function_call_outputs = count_of (λ v. v.function_call_outputs) diagnostics;
    custom_tool_call_outputs = count_of (λ v. v.custom_tool_call_outputs) diagnostics;
    textual_tool_result_bytes_seen = count_of (λ v. v.textual_tool_result_bytes) diagnostics;
    bytes_before = stats.tool_result_bytes_before;
    bytes_after = stats.tool_result_bytes_after;
    bytes_saved = stats.tool_result_bytes_saved;
  };
  provider_usage = provider_usage;
}

outcome_of_run : OptimizationRunState → AgingStats → OptimizationOutcome
outcome_of_run run_disabled stats = Model.disabled
outcome_of_run run_bypassed stats = bypassed
outcome_of_run run_evaluated stats =
    if ltb 0 stats.tool_results_aged
    then Model.aged
    else if ltb 0 stats.tool_results_eligible
    then Model.evaluated_no_savings
    else Model.evaluated_no_eligible_result

unfoldable pub event_from_aging :
    ℕ → ℕ → OptimizationRunState → AgingResult → Option ProviderUsage → OptimizationEvent
unfolding build_event outcome_of_run
event_from_aging observed_at_epoch_ms session_id run_state result provider_usage =
    build_event observed_at_epoch_ms session_id (outcome_of_run run_state result.stats) result.stats
      none provider_usage

outcome_of_preparation : PreparationOutcome → OptimizationOutcome
outcome_of_preparation disabled = Model.disabled
outcome_of_preparation compaction_bypass = bypassed
outcome_of_preparation native_passthrough = Model.native_passthrough
outcome_of_preparation fail_original = Model.fail_original
outcome_of_preparation evaluated_no_eligible_result = Model.evaluated_no_eligible_result
outcome_of_preparation evaluated_no_savings = Model.evaluated_no_savings
outcome_of_preparation aged = Model.aged

-- the usage that was observed, and the given one where none was
live_usage : Option ProviderUsageObservation → Option ProviderUsage → Option ProviderUsage
live_usage none provider_usage = provider_usage
live_usage (some usage) provider_usage = some (record {
  input_tokens = usage.input_tokens;
  cached_input_tokens = usage.cached_input_tokens;
  output_tokens = usage.output_tokens;
})

unfoldable pub event_from_transport_observation :
    ℕ → ℕ → TransportObservation → Option ProviderUsage → OptimizationEvent
unfolding build_event outcome_of_preparation live_usage
event_from_transport_observation observed_at_epoch_ms session_id observation provider_usage =
    build_event observed_at_epoch_ms session_id (outcome_of_preparation observation.outcome)
      observation.aging_stats observation.request
      (live_usage observation.provider_usage provider_usage)
