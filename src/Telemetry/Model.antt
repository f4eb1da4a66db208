-- ===== src/Telemetry/Model.antt =====
-- src/modules/telemetry/model.rs: what one request adds to the measurements.
use tokensaver.Prelude.{ℕ, ◌+◌, ◌*◌, ◌/◌, ◌≤◌, ◌<◌, Option, arith, u64_max, saturating_add}

pub data OptimizationOutcome : Type 0 where
  disabled bypassed native_passthrough fail_original : OptimizationOutcome
  evaluated_no_eligible_result evaluated_no_savings aged : OptimizationOutcome

pub record ProviderUsage : Type 0 where
  pub input_tokens : ℕ
  pub cached_input_tokens : ℕ
  pub output_tokens : ℕ

pub record OptimizationMetrics : Type 0 where
  pub tool_results_evaluated : ℕ
  pub tool_results_eligible : ℕ
  pub tool_results_compacted : ℕ
  pub largest_tool_result_bytes : ℕ
  pub protected_frontier : ℕ
  pub unsupported_output : ℕ
  pub at_or_below_threshold : ℕ
  pub unconsumed : ℕ
  pub receipt_not_smaller : ℕ
  pub responses_with_previous_response_id : ℕ
  pub responses_without_previous_response_id : ℕ
  pub previous_response_id_preserved : ℕ
  pub aging_pass_ran : ℕ
  pub input_items : ℕ
  pub function_call_outputs : ℕ
  pub custom_tool_call_outputs : ℕ
  pub textual_tool_result_bytes_seen : ℕ
  pub bytes_before : ℕ
  pub bytes_after : ℕ
  pub bytes_saved : ℕ

abbrev pub bytes_per_token_estimate : ℕ
bytes_per_token_estimate = 4

unfoldable pub estimated_tokens_saved : OptimizationMetrics → ℕ
unfolding saturating_add
estimated_tokens_saved metrics =
    saturating_add metrics.bytes_saved (bytes_per_token_estimate / 2) / bytes_per_token_estimate

pub record OptimizationEvent : Type 0 where
  pub observed_at_epoch_ms : ℕ
  pub session_id : ℕ
  pub outcome : OptimizationOutcome
  pub metrics : OptimizationMetrics
  pub provider_usage : Option ProviderUsage

-- Four times the estimate is within half a token of the bytes saved, while adding the rounding
-- constant does not reach the counter's limit.
estimated_tokens_saved-rounds :
    (metrics : OptimizationMetrics)
    → metrics.bytes_saved + 2 ≤ u64_max
    → (4 * estimated_tokens_saved metrics ≤ metrics.bytes_saved + 2)
      × (metrics.bytes_saved < 4 * estimated_tokens_saved metrics + 2)
unfolding estimated_tokens_saved
estimated_tokens_saved-rounds metrics h = omega arith
