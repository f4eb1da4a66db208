-- ===== src/Application/Desktop/View.antt =====
-- src/application/desktop_runtime.rs: what the program shows of its state.
use tokensaver.Prelude.{
  ℕ, ◌+◌, ◌≤◌, ◌≡◌, sym, ◌∙◌, Bool, Option, none, some, List, arith, length, u64_max,
  saturating_add, Str,
}
use tokensaver.Application.Connection.{ActiveConnection}
use tokensaver.Application.Desktop.{Controller, Notice, refresh_connection_health}
use tokensaver.Codex.Toml.{Toml, seen}
use tokensaver.Codex.Config.{CodexConfigSnapshot}
use tokensaver.Runtime.Status.{ServiceStatus, CodexStatus}
use tokensaver.Runtime.Status
use tokensaver.Telemetry.Model.{OptimizationEvent}
use tokensaver.Telemetry.Store.{LastOptimization, PersistentSavings, for_day}
use tokensaver.Telemetry.Summary.{SavingsSummary, for_session, summarize}
use tokensaver.Telemetry.Summary.Laws.{classified, summarize-classified}

pub data DesktopServiceState : Type 0 where
  starting running error : DesktopServiceState

pub data DesktopCodexState : Type 0 where
  disconnected connecting connected drifted error : DesktopCodexState

pub record SavingsView : Type 0 where
  pub requests_observed : ℕ
  pub responses_requests : ℕ
  pub compaction_bypass_requests : ℕ
  pub native_passthrough_requests : ℕ
  pub disabled_requests : ℕ
  pub fail_original_requests : ℕ
  pub no_eligible_requests : ℕ
  pub no_savings_requests : ℕ
  pub tool_results_evaluated : ℕ
  pub tool_results_eligible : ℕ
  pub bytes_saved : ℕ
  pub estimated_tokens_saved : ℕ
  pub tool_results_compacted : ℕ
  pub aged_requests : ℕ

pub record LastOptimizationView : Type 0 where
  pub observed_at_epoch_ms : ℕ
  pub bytes_before : ℕ
  pub bytes_after : ℕ
  pub bytes_saved : ℕ
  pub estimated_tokens_saved : ℕ
  pub tool_results_compacted : ℕ

pub record AgingPolicyView : Type 0 where
  pub min_bytes : ℕ
  pub frontier : ℕ
  pub preview_code_units : ℕ

pub record DesktopRuntimeSnapshot : Type 0 where
  pub service : DesktopServiceState
  pub codex : DesktopCodexState
  pub saving_enabled : Bool
  pub connect_on_launch : Bool
  pub active_requests : ℕ
  pub dropped_telemetry_observations : ℕ
  pub policy : AgingPolicyView
  pub session : SavingsView
  pub today : SavingsView
  pub all_time : SavingsView
  pub last_optimization : Option LastOptimizationView
  pub last_error : Option Notice

unfoldable pub savings_view : SavingsSummary → SavingsView
unfolding saturating_add
savings_view summary = record {
  requests_observed = summary.events;
  responses_requests =
      saturating_add
        (saturating_add
          (saturating_add (saturating_add summary.aged_requests summary.disabled_requests)
            summary.fail_original_requests)
          summary.no_eligible_requests)
        summary.no_savings_requests;
  compaction_bypass_requests = summary.bypassed_requests;
  native_passthrough_requests = summary.native_passthrough_requests;
  disabled_requests = summary.disabled_requests;
  fail_original_requests = summary.fail_original_requests;
  no_eligible_requests = summary.no_eligible_requests;
  no_savings_requests = summary.no_savings_requests;
  tool_results_evaluated = summary.tool_results_evaluated;
  tool_results_eligible = summary.tool_results_eligible;
  bytes_saved = summary.bytes_saved;
  estimated_tokens_saved = summary.estimated_tokens_saved;
  tool_results_compacted = summary.tool_results_compacted;
  aged_requests = summary.aged_requests;
}

last_optimization_view : LastOptimization → LastOptimizationView
last_optimization_view last = record {
  observed_at_epoch_ms = last.observed_at_epoch_ms;
  bytes_before = last.bytes_before;
  bytes_after = last.bytes_after;
  bytes_saved = last.bytes_saved;
  estimated_tokens_saved = last.estimated_tokens_saved;
  tool_results_compacted = last.tool_results_compacted;
}

last_view : Option LastOptimization → Option LastOptimizationView
unfolding last_optimization_view
last_view none = none
last_view (some last) = some (last_optimization_view last)

map_service_status : ServiceStatus → DesktopServiceState
map_service_status Status.stopped = starting
map_service_status Status.starting = starting
map_service_status Status.running = running
map_service_status Status.error = error

map_codex_status : CodexStatus → DesktopCodexState
map_codex_status Status.disconnected = disconnected
map_codex_status Status.connecting = connecting
map_codex_status Status.connected = connected
map_codex_status Status.drifted = drifted
map_codex_status Status.error = error

dropped_observations_of : Option ActiveConnection → ℕ
dropped_observations_of none = 0
dropped_observations_of (some active) = active.control.dropped_observations

-- what `snapshot` shows once the health of the connection is known
unfoldable pub view : Str → Controller → DesktopRuntimeSnapshot
unfolding last_view map_service_status map_codex_status dropped_observations_of savings_view
view local_day c = record {
  service = map_service_status c.status.service;
  codex = map_codex_status c.status.codex;
  saving_enabled = c.status.saving_enabled;
  connect_on_launch = c.preferences.connect_on_launch;
  active_requests = c.status.active_requests;
  dropped_telemetry_observations = dropped_observations_of c.connection;
  policy = record {
    min_bytes = c.preferences.min_bytes;
    frontier = c.preferences.frontier;
    preview_code_units = c.preferences.preview_code_units;
  };
  session = savings_view (for_session c.session_ledger c.session_id);
  today = savings_view (for_day c.durable_savings local_day);
  all_time = savings_view c.durable_savings.state.all_time;
  last_optimization = last_view c.durable_savings.state.last_optimization;
  last_error = c.status.last_error;
}

module _ (toml : Toml) (to_json : CodexConfigSnapshot → Option Str)
    (from_json : Str → Option CodexConfigSnapshot)
    (savings_to_json : PersistentSavings → Option Str) (bind : ℕ → Option ℕ) where
  unfoldable pub snapshot : Str → Controller → Controller × DesktopRuntimeSnapshot
  snapshot local_day c =
      let fresh = refresh_connection_health toml to_json from_json savings_to_json bind c in
      (fresh, view local_day fresh)

responses_requests-eq :
    (s : SavingsSummary)
    → classified s ≤ u64_max
    → (savings_view s).responses_requests + s.bypassed_requests + s.native_passthrough_requests
      ≡ classified s
unfolding savings_view saturating_add
responses_requests-eq s h = omega arith

-- The requests that are shown for a summary of at most 2^64 - 1 events are the responses requests,
-- the bypassed compactions and the requests passed on, each counted once.
savings_view-summarize :
    (events : List OptimizationEvent)
    → length events ≤ u64_max
    → ((savings_view (summarize events)).requests_observed
        ≡ (savings_view (summarize events)).responses_requests
          + (savings_view (summarize events)).compaction_bypass_requests
          + (savings_view (summarize events)).native_passthrough_requests)
      × ((savings_view (summarize events)).requests_observed ≡ length events)
unfolding savings_view
savings_view-summarize events h =
    let (seen, counted) = summarize-classified events h in
    let shown = responses_requests-eq (summarize events) (omega arith) in
    (seen ∙ sym counted ∙ sym shown, seen)
