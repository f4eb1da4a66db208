-- ===== src/Tests/Telemetry.antt =====
-- Runs of src/modules/telemetry: two events of two sessions, and the store of their days.
use tokensaver.Prelude.{
  ℕ, zero, suc, ◌≤◌, ◌⊎◌, ◌++◌, All, str_ltb, ◌≡◌, refl, sym, ap, inl, true, false, Option, none,
  some, List, [], ◌∷◌, arith, ◌==◌, if◌then◌else◌, length, replicate, saturating_add,
  saturating_mul, Str, codes, str_eq,
}
use tokensaver.Telemetry.Model.{OptimizationEvent, OptimizationMetrics, aged}
use tokensaver.Telemetry.Summary.{
  SavingsLedger, summarize, for_session, record_event, observe, cache_rate_basis_points,
  SavingsSummary, default_summary,
}
use tokensaver.Telemetry.Summary.Laws.{
  classified, summarize-classified, summarize-rate-le, for_session-record_event,
}
use tokensaver.Telemetry.Store.{
  DurableSavingsStore, PersistentSavings, default_savings, record_savings, for_day,
  max_daily_buckets, flush, open_store, contents, ok, observe_day, LastOptimization, Daily,
}
use tokensaver.Telemetry.Store.Laws.{
  IsSortedDays, IsBefore, record_savings-le, record_savings-drops_oldest, for_day-record_savings,
  open_store-flush,
}

abbrev saving : OptimizationMetrics
saving = record {
  tool_results_evaluated = 2;
  tool_results_eligible = 1;
  tool_results_compacted = 1;
  largest_tool_result_bytes = 1200;
  protected_frontier = 1;
  unsupported_output = 0;
  at_or_below_threshold = 0;
  unconsumed = 0;
  receipt_not_smaller = 0;
  responses_with_previous_response_id = 0;
  responses_without_previous_response_id = 1;
  previous_response_id_preserved = 0;
  aging_pass_ran = 1;
  input_items = 5;
  function_call_outputs = 2;
  custom_tool_call_outputs = 0;
  textual_tool_result_bytes_seen = 2000;
  bytes_before = 1200;
  bytes_after = 500;
  bytes_saved = 700;
}

abbrev first : OptimizationEvent
first = record {
  observed_at_epoch_ms = 1000;
  session_id = 1;
  outcome = aged;
  metrics = saving;
  provider_usage =
      some (record { input_tokens = 1000; cached_input_tokens = 250; output_tokens = 9 });
}

abbrev second : OptimizationEvent
second = record first { session_id = 2; observed_at_epoch_ms = 2000 }

abbrev both : List OptimizationEvent
both = first ∷ second ∷ []

summarize-classified_example :
    ((summarize both).events ≡ length both) × (classified (summarize both) ≡ length both)
summarize-classified_example = summarize-classified both (omega arith)

overall_rate : cache_rate_basis_points (summarize both) ≡ some 2500
unfolding cache_rate_basis_points summarize observe saturating_add saturating_mul
overall_rate = refl

summarize-rate-le_example : 2500 ≤ 10000
summarize-rate-le_example = summarize-rate-le both 2500 (inl overall_rate)

abbrev ledger : SavingsLedger
ledger = record { events = first ∷ [] }

for_session-record_event_example : for_session (record_event ledger second) 2 ≡ (
    if second.session_id == 2 then observe (for_session ledger 2) second else for_session ledger 2)
for_session-record_event_example = for_session-record_event ledger second 2

abbrev day : Str
day = codes "2026-01-02"

abbrev next_day : Str
next_day = codes "2026-01-03"

abbrev store : DurableSavingsStore
store = record { state = default_savings; dirty = false }

record_savings-le_example : length (record_savings store first day).state.daily ≤ max_daily_buckets
record_savings-le_example = record_savings-le store first day

-- 120 days
abbrev days_from : ℕ → ℕ → Daily
days_from start zero = []
days_from start (suc n) = (start ∷ [], default_summary) ∷ days_from (suc start) n

days_from-IsSortedDays : (start n : ℕ) → IsSortedDays (days_from start n)
unfolding str_ltb
days_from-IsSortedDays start zero = tt
days_from-IsSortedDays start (suc zero) = (tt, tt)
days_from-IsSortedDays start (suc (suc n)) =
    (ground arith, days_from-IsSortedDays (suc start) (suc n))

abbrev full_store : DurableSavingsStore
full_store = record { state = record default_savings { daily = days_from 1 120 }; dirty = false }

record_savings-drops_oldest_example :
    (old : Daily) × (observe_day (200 ∷ []) first full_store.state.daily
      ≡ old ++ (record_savings full_store first (200 ∷ [])).state.daily)
    × All (IsBefore (record_savings full_store first (200 ∷ [])).state.daily) old
    × ((old ≡ [])
        ⊎ (length (record_savings full_store first (200 ∷ [])).state.daily ≡ max_daily_buckets))
record_savings-drops_oldest_example =
    record_savings-drops_oldest full_store first (200 ∷ []) (days_from-IsSortedDays 1 120)

for_day-record_savings_example :
    for_day (record_savings store first day) next_day
    ≡ (if str_eq day next_day then observe (for_day store day) first else for_day store next_day)
unfolding observe_day
for_day-record_savings_example = for_day-record_savings store first day next_day tt (omega arith)

-- A codec for the states that hold no day.
abbrev write_numbers : Daily → Option LastOptimization → SavingsSummary → ℕ → Option Str
write_numbers [] none s version = some (
    version ∷ s.events ∷ s.aged_requests ∷ s.disabled_requests ∷ s.bypassed_requests
    ∷ s.native_passthrough_requests ∷ s.fail_original_requests ∷ s.no_eligible_requests
    ∷ s.no_savings_requests ∷ s.tool_results_evaluated ∷ s.tool_results_eligible
    ∷ s.tool_results_compacted ∷ s.largest_tool_result_bytes ∷ s.protected_frontier
    ∷ s.unsupported_output ∷ s.at_or_below_threshold ∷ s.unconsumed ∷ s.receipt_not_smaller
    ∷ s.responses_with_previous_response_id ∷ s.responses_without_previous_response_id
    ∷ s.previous_response_id_preserved ∷ s.aging_pass_ran ∷ s.input_items ∷ s.function_call_outputs
    ∷ s.custom_tool_call_outputs ∷ s.textual_tool_result_bytes_seen ∷ s.bytes_before ∷ s.bytes_after
    ∷ s.bytes_saved ∷ s.estimated_tokens_saved ∷ s.provider_input_tokens
    ∷ s.provider_cached_input_tokens ∷ s.provider_output_tokens ∷ s.provider_usage_events
    ∷ s.aged_cache.usage_events ∷ s.aged_cache.input_tokens ∷ s.aged_cache.cached_input_tokens
    ∷ s.unaged_cache.usage_events ∷ s.unaged_cache.input_tokens ∷ s.unaged_cache.cached_input_tokens
    ∷ [])
write_numbers (_ ∷ _) _ s version = none
write_numbers [] (some _) s version = none

abbrev to_json : PersistentSavings → Option Str
to_json state =
    write_numbers state.daily state.last_optimization state.all_time state.schema_version

abbrev from_json : Str → Option PersistentSavings
from_json
      (version ∷ n0 ∷ n1 ∷ n2 ∷ n3 ∷ n4 ∷ n5 ∷ n6 ∷ n7 ∷ n8 ∷ n9 ∷ n10 ∷ n11 ∷ n12 ∷ n13 ∷ n14 ∷ n15
        ∷ n16 ∷ n17 ∷ n18 ∷ n19 ∷ n20 ∷ n21 ∷ n22 ∷ n23 ∷ n24 ∷ n25 ∷ n26 ∷ n27 ∷ n28 ∷ n29 ∷ n30
        ∷ n31 ∷ n32 ∷ n33 ∷ n34 ∷ n35 ∷ n36 ∷ n37 ∷ n38 ∷ []) =
    some (record {
      schema_version = version;
      all_time = record {
        events = n0;
        aged_requests = n1;
        disabled_requests = n2;
        bypassed_requests = n3;
        native_passthrough_requests = n4;
        fail_original_requests = n5;
        no_eligible_requests = n6;
        no_savings_requests = n7;
        tool_results_evaluated = n8;
        tool_results_eligible = n9;
        tool_results_compacted = n10;
        largest_tool_result_bytes = n11;
        protected_frontier = n12;
        unsupported_output = n13;
        at_or_below_threshold = n14;
        unconsumed = n15;
        receipt_not_smaller = n16;
        responses_with_previous_response_id = n17;
        responses_without_previous_response_id = n18;
        previous_response_id_preserved = n19;
        aging_pass_ran = n20;
        input_items = n21;
        function_call_outputs = n22;
        custom_tool_call_outputs = n23;
        textual_tool_result_bytes_seen = n24;
        bytes_before = n25;
        bytes_after = n26;
        bytes_saved = n27;
        estimated_tokens_saved = n28;
        provider_input_tokens = n29;
        provider_cached_input_tokens = n30;
        provider_output_tokens = n31;
        provider_usage_events = n32;
        aged_cache = record { usage_events = n33; input_tokens = n34; cached_input_tokens = n35 };
        unaged_cache = record { usage_events = n36; input_tokens = n37; cached_input_tokens = n38 };
      };
      daily = [];
      last_optimization = none;
    })
from_json _ = none

-- what is read from what was written
abbrev from_json_of : Option Str → Option PersistentSavings
from_json_of none = none
from_json_of (some source) = from_json source

write_numbers-from_json :
    (daily : Daily) (last : Option LastOptimization) (s : SavingsSummary) (version : ℕ)
    (source : Str)
    → write_numbers daily last s version ≡ some source
    → from_json source
      ≡ some (record {
        schema_version = version;
        all_time = s;
        daily = daily;
        last_optimization = last;
      })
write_numbers-from_json [] none s version source h =
    let same : from_json_of (write_numbers [] none s version) ≡ from_json_of (some source) =
      ap from_json_of h in
    sym same
write_numbers-from_json (entry ∷ daily) last s version source h = cc
write_numbers-from_json [] (some last) s version source h = cc

reads_back :
    (state : PersistentSavings) (source : Str)
    → to_json state ≡ some source
    → from_json source ≡ some state
reads_back state source =
    write_numbers-from_json state.daily state.last_optimization state.all_time state.schema_version
      source

abbrev changed : DurableSavingsStore
changed = record { state = default_savings; dirty = true }

abbrev default_source : Str
default_source = 1 ∷ replicate 39 0

flushed : (flush to_json true changed).1 ≡ ok (some default_source)
unfolding flush
flushed = refl

open_store-flush_example :
    open_store from_json (contents default_source) ≡ ok (flush to_json true changed).0
open_store-flush_example =
    open_store-flush to_json from_json reads_back true changed default_source refl flushed
