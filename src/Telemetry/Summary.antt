-- ===== src/Telemetry/Summary.antt =====
-- src/modules/telemetry/aggregate.rs: the summary of events, and the ledger of a session.
pub mod Laws
use tokensaver.Prelude.{
  ℕ, ◌/◌, min, max, Bool, ◌&&◌, Option, none, some, List, [], ◌∷◌, ◌++◌, ltb, leb, ◌==◌,
  if◌then◌else◌, saturating_add, saturating_mul,
}
use tokensaver.Telemetry.Model.{
  OptimizationOutcome, OptimizationEvent, OptimizationMetrics, ProviderUsage, disabled, bypassed,
  native_passthrough, fail_original, evaluated_no_eligible_result, evaluated_no_savings, aged,
  estimated_tokens_saved,
}

pub record ProviderCacheSummary : Type 0 where
  pub usage_events : ℕ
  pub input_tokens : ℕ
  pub cached_input_tokens : ℕ

abbrev pub default_cache : ProviderCacheSummary
default_cache = record { usage_events = 0; input_tokens = 0; cached_input_tokens = 0 }

-- `ProviderCacheSummary::observe`
observe_cache : ℕ → ℕ → ProviderCacheSummary → ProviderCacheSummary
observe_cache input_tokens cached_input_tokens cache = record {
  usage_events = saturating_add cache.usage_events 1;
  input_tokens = saturating_add cache.input_tokens input_tokens;
  cached_input_tokens =
      saturating_add cache.cached_input_tokens (min cached_input_tokens input_tokens);
}

-- `cached * 10_000 / input`, as both rate functions compute it
rate : ℕ → ℕ → Option ℕ
rate cached input = if input == 0 then none else some (saturating_mul cached 10000 / input)

-- `ProviderCacheSummary::rate_basis_points`
unfoldable pub rate_basis_points : ProviderCacheSummary → Option ℕ
unfolding rate
rate_basis_points cache = rate cache.cached_input_tokens cache.input_tokens

pub record SavingsSummary : Type 0 where
  pub events : ℕ
  pub aged_requests : ℕ
  pub disabled_requests : ℕ
  pub bypassed_requests : ℕ
  pub native_passthrough_requests : ℕ
  pub fail_original_requests : ℕ
  pub no_eligible_requests : ℕ
  pub no_savings_requests : ℕ
  pub tool_results_evaluated : ℕ
  pub tool_results_eligible : ℕ
  pub tool_results_compacted : ℕ
  pub largest_tool_result_bytes : ℕ
  pub protected_frontier : ℕ
  pub unsupported_output : ℕ
  pub at_or_below_threshold : ℕ
  pub unconsumed : ℕ
  pub receipt_not_smaller : ℕ
  pub responses_with_previous_response_id : ℕ
  pub responses_without_previous_response_id : ℕ
  pub previous_response_id_preserved : ℕ
  pub aging_pass_ran : ℕ
  pub input_items : ℕ
  pub function_call_outputs : ℕ
  pub custom_tool_call_outputs : ℕ
  pub textual_tool_result_bytes_seen : ℕ
  pub bytes_before : ℕ
  pub bytes_after : ℕ
  pub bytes_saved : ℕ
  pub estimated_tokens_saved : ℕ
  pub provider_input_tokens : ℕ
  pub provider_cached_input_tokens : ℕ
  pub provider_output_tokens : ℕ
  pub provider_usage_events : ℕ
  pub aged_cache : ProviderCacheSummary
  pub unaged_cache : ProviderCacheSummary

abbrev pub default_summary : SavingsSummary
default_summary = record {
  events = 0;
  aged_requests = 0;
  disabled_requests = 0;
  bypassed_requests = 0;
  native_passthrough_requests = 0;
  fail_original_requests = 0;
  no_eligible_requests = 0;
  no_savings_requests = 0;
  tool_results_evaluated = 0;
  tool_results_eligible = 0;
  tool_results_compacted = 0;
  largest_tool_result_bytes = 0;
  protected_frontier = 0;
  unsupported_output = 0;
  at_or_below_threshold = 0;
  unconsumed = 0;
  receipt_not_smaller = 0;
  responses_with_previous_response_id = 0;
  responses_without_previous_response_id = 0;
  previous_response_id_preserved = 0;
  aging_pass_ran = 0;
  input_items = 0;
  function_call_outputs = 0;
  custom_tool_call_outputs = 0;
  textual_tool_result_bytes_seen = 0;
  bytes_before = 0;
  bytes_after = 0;
  bytes_saved = 0;
  estimated_tokens_saved = 0;
  provider_input_tokens = 0;
  provider_cached_input_tokens = 0;
  provider_output_tokens = 0;
  provider_usage_events = 0;
  aged_cache = default_cache;
  unaged_cache = default_cache;
}

-- the first statement and the first `match` of `SavingsSummary::observe`
count_outcome : OptimizationOutcome → SavingsSummary → SavingsSummary
count_outcome disabled s = record s {
  events = saturating_add s.events 1;
  disabled_requests = saturating_add s.disabled_requests 1;
}
count_outcome bypassed s = record s {
  events = saturating_add s.events 1;
  bypassed_requests = saturating_add s.bypassed_requests 1;
}
count_outcome native_passthrough s = record s {
  events = saturating_add s.events 1;
  native_passthrough_requests = saturating_add s.native_passthrough_requests 1;
}
count_outcome fail_original s = record s {
  events = saturating_add s.events 1;
  fail_original_requests = saturating_add s.fail_original_requests 1;
}
count_outcome evaluated_no_eligible_result s = record s {
  events = saturating_add s.events 1;
  no_eligible_requests = saturating_add s.no_eligible_requests 1;
}
count_outcome evaluated_no_savings s = record s {
  events = saturating_add s.events 1;
  no_savings_requests = saturating_add s.no_savings_requests 1;
}
count_outcome aged s = record s {
  events = saturating_add s.events 1;
  aged_requests = saturating_add s.aged_requests 1;
}

-- the sums over the metrics
add_metrics : OptimizationMetrics → SavingsSummary → SavingsSummary
add_metrics metrics s = record s {
  tool_results_evaluated = saturating_add s.tool_results_evaluated metrics.tool_results_evaluated;
  tool_results_eligible = saturating_add s.tool_results_eligible metrics.tool_results_eligible;
  tool_results_compacted = saturating_add s.tool_results_compacted metrics.tool_results_compacted;
  largest_tool_result_bytes = max s.largest_tool_result_bytes metrics.largest_tool_result_bytes;
  protected_frontier = saturating_add s.protected_frontier metrics.protected_frontier;
  unsupported_output = saturating_add s.unsupported_output metrics.unsupported_output;
  at_or_below_threshold = saturating_add s.at_or_below_threshold metrics.at_or_below_threshold;
  unconsumed = saturating_add s.unconsumed metrics.unconsumed;
  receipt_not_smaller = saturating_add s.receipt_not_smaller metrics.receipt_not_smaller;
  responses_with_previous_response_id =
      saturating_add s.responses_with_previous_response_id
        metrics.responses_with_previous_response_id;
  responses_without_previous_response_id =
      saturating_add s.responses_without_previous_response_id
        metrics.responses_without_previous_response_id;
  previous_response_id_preserved =
      saturating_add s.previous_response_id_preserved metrics.previous_response_id_preserved;
  aging_pass_ran = saturating_add s.aging_pass_ran metrics.aging_pass_ran;
  input_items = saturating_add s.input_items metrics.input_items;
  function_call_outputs = saturating_add s.function_call_outputs metrics.function_call_outputs;
  custom_tool_call_outputs =
      saturating_add s.custom_tool_call_outputs metrics.custom_tool_call_outputs;
  textual_tool_result_bytes_seen =
      saturating_add s.textual_tool_result_bytes_seen metrics.textual_tool_result_bytes_seen;
  bytes_before = saturating_add s.bytes_before metrics.bytes_before;
  bytes_after = saturating_add s.bytes_after metrics.bytes_after;
  bytes_saved = saturating_add s.bytes_saved metrics.bytes_saved;
  estimated_tokens_saved = saturating_add s.estimated_tokens_saved (estimated_tokens_saved metrics);
}

-- the second `match`: which cache an outcome counts for
add_cache : OptimizationOutcome → ProviderUsage → SavingsSummary → SavingsSummary
add_cache aged usage s = record s {
  aged_cache = observe_cache usage.input_tokens usage.cached_input_tokens s.aged_cache;
}
add_cache bypassed usage s = s
add_cache native_passthrough usage s = s
add_cache _ usage s = record s {
  unaged_cache = observe_cache usage.input_tokens usage.cached_input_tokens s.unaged_cache;
}

-- the last statement, for an event with provider usage
add_usage : OptimizationOutcome → Option ProviderUsage → SavingsSummary → SavingsSummary
unfolding add_cache observe_cache
add_usage outcome none s = s
add_usage outcome (some usage) s = add_cache outcome usage (record s {
  provider_usage_events = saturating_add s.provider_usage_events 1;
  provider_input_tokens = saturating_add s.provider_input_tokens usage.input_tokens;
  provider_cached_input_tokens =
      saturating_add s.provider_cached_input_tokens
        (min usage.cached_input_tokens usage.input_tokens);
  provider_output_tokens = saturating_add s.provider_output_tokens usage.output_tokens;
})

unfoldable pub observe : SavingsSummary → OptimizationEvent → SavingsSummary
unfolding count_outcome add_metrics add_usage
observe s event =
    add_usage event.outcome event.provider_usage
      (add_metrics event.metrics (count_outcome event.outcome s))

unfoldable pub cache_rate_basis_points : SavingsSummary → Option ℕ
unfolding rate
cache_rate_basis_points s = rate s.provider_cached_input_tokens s.provider_input_tokens

pub record SavingsLedger : Type 0 where
  pub events : List OptimizationEvent

unfoldable pub record_event : SavingsLedger → OptimizationEvent → SavingsLedger
record_event ledger event = record { events = ledger.events ++ event ∷ [] }

summarize_loop : SavingsSummary → List OptimizationEvent → SavingsSummary
summarize_loop summary [] = summary
summarize_loop summary (event ∷ events) = summarize_loop (observe summary event) events

unfoldable pub summarize : List OptimizationEvent → SavingsSummary
unfolding summarize_loop
summarize events = summarize_loop default_summary events

-- `Iterator::filter`
select : (OptimizationEvent → Bool) → List OptimizationEvent → List OptimizationEvent
select test [] = []
select test (event ∷ events) =
    let rest = select test events in if test event then event ∷ rest else rest

unfoldable pub all_time : SavingsLedger → SavingsSummary
all_time ledger = summarize ledger.events

unfoldable pub for_session : SavingsLedger → ℕ → SavingsSummary
unfolding select
for_session ledger session_id =
    summarize (select (λ event. event.session_id == session_id) ledger.events)

unfoldable pub between : SavingsLedger → ℕ → ℕ → SavingsSummary
unfolding select
between ledger start_epoch_ms end_epoch_ms = summarize (
    select
      (λ event.
        leb start_epoch_ms event.observed_at_epoch_ms
        && ltb event.observed_at_epoch_ms end_epoch_ms)
      ledger.events)
