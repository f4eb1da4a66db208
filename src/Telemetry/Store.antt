-- ===== src/Telemetry/Store.antt =====
-- src/modules/telemetry/store.rs: the durable store of summaries, by local day and of all time.
-- The codec is that of the crate serde_json, and enters as two functions; what the file system
-- answers is an argument of the operation that asks.
pub mod Laws
use tokensaver.Prelude.{
  ℕ, Bool, true, false, not, Option, none, some, List, [], ◌∷◌, ltb, ◌==◌, if◌then◌else◌, length,
  Str, str_eq, str_ltb,
}
use tokensaver.Telemetry.Model
use tokensaver.Telemetry.Model.{
  OptimizationOutcome, OptimizationEvent, aged, estimated_tokens_saved,
}
use tokensaver.Telemetry.Summary.{SavingsSummary, default_summary, observe, all_time}

abbrev pub store_schema_version : ℕ
store_schema_version = 1

abbrev pub max_daily_buckets : ℕ
max_daily_buckets = 120

pub record LastOptimization : Type 0 where
  pub observed_at_epoch_ms : ℕ
  pub bytes_before : ℕ
  pub bytes_after : ℕ
  pub bytes_saved : ℕ
  pub estimated_tokens_saved : ℕ
  pub tool_results_compacted : ℕ

-- `BTreeMap<String, SavingsSummary>`: the entries in the order of their keys
abbrev pub Daily : Type 0
Daily = List (Str × SavingsSummary)

pub record PersistentSavings : Type 0 where
  pub schema_version : ℕ
  pub all_time : SavingsSummary
  pub daily : Daily
  pub last_optimization : Option LastOptimization

abbrev pub default_savings : PersistentSavings
default_savings = record {
  schema_version = store_schema_version;
  all_time = default_summary;
  daily = [];
  last_optimization = none;
}

pub data SavingsStoreError : Type 0 where
  io invalid_json : SavingsStoreError
  unsupported_schema : ℕ → SavingsStoreError

pub data StoreResult {ℓ} (A : Type ℓ) : Type ℓ where
  ok : A → StoreResult A
  err : SavingsStoreError → StoreResult A

pub record DurableSavingsStore : Type 0 where
  pub state : PersistentSavings
  pub dirty : Bool

-- `fs::read_to_string`
pub data ReadFile : Type 0 where
  contents : Str → ReadFile
  not_found failed : ReadFile

-- what `open` does with the state that the file holds
opened : Option PersistentSavings → StoreResult DurableSavingsStore
opened none = err invalid_json
opened (some state) =
    if state.schema_version == store_schema_version
    then ok (record { state = state; dirty = false })
    else err (unsupported_schema state.schema_version)

unfoldable pub open_store :
    (Str → Option PersistentSavings) → ReadFile → StoreResult DurableSavingsStore
unfolding opened
open_store from_json (contents source) = opened (from_json source)
open_store from_json not_found = ok (record { state = default_savings; dirty = false })
open_store from_json failed = err io

-- `daily.entry(day).or_default().observe(event)`
unfoldable pub observe_day : Str → OptimizationEvent → Daily → Daily
observe_day day event [] = (day, observe default_summary event) ∷ []
observe_day day event ((key, summary) ∷ daily) =
    let later = observe_day day event daily in
    if str_eq key day
    then (key, observe summary event) ∷ daily
    else if str_ltb day key
    then (day, observe default_summary event) ∷ (key, summary) ∷ daily
    else (key, summary) ∷ later

-- `while daily.len() > MAX_DAILY_BUCKETS { .. remove(&oldest) }`: the first key is the oldest.
drop_oldest : Daily → Daily
drop_oldest [] = []
drop_oldest (entry ∷ daily) =
    let rest = drop_oldest daily in
    if ltb max_daily_buckets (length (entry ∷ daily)) then rest else entry ∷ daily

last_of :
    OptimizationOutcome → OptimizationEvent → Option LastOptimization → Option LastOptimization
last_of aged event last = some (record {
  observed_at_epoch_ms = event.observed_at_epoch_ms;
  bytes_before = event.metrics.bytes_before;
  bytes_after = event.metrics.bytes_after;
  bytes_saved = event.metrics.bytes_saved;
  estimated_tokens_saved = Model.estimated_tokens_saved event.metrics;
  tool_results_compacted = event.metrics.tool_results_compacted;
})
last_of _ event last = last

unfoldable pub record_savings : DurableSavingsStore → OptimizationEvent → Str → DurableSavingsStore
unfolding observe_day drop_oldest last_of
record_savings store event local_day = record {
  state = record store.state {
    all_time = observe store.state.all_time event;
    daily = drop_oldest (observe_day local_day event store.state.daily);
    last_optimization = last_of event.outcome event store.state.last_optimization;
  };
  dirty = true;
}

lookup_day : Str → Daily → Option SavingsSummary
lookup_day day [] = none
lookup_day day ((key, summary) ∷ daily) =
    if str_eq key day then some summary else lookup_day day daily

or_default : Option SavingsSummary → SavingsSummary
or_default none = default_summary
or_default (some summary) = summary

unfoldable pub for_day : DurableSavingsStore → Str → SavingsSummary
unfolding lookup_day or_default
for_day store local_day = or_default (lookup_day local_day store.state.daily)

-- `flush`: the text to write, or nothing if the store is clean. `written` is what the atomic write
-- answers; the store stays dirty unless it succeeds.
unfoldable pub flush :
    (PersistentSavings → Option Str)
    → Bool
    → DurableSavingsStore
    → DurableSavingsStore × StoreResult (Option Str)
flush to_json written store =
    if not store.dirty then (store, ok none) else elim (to_json store.state) [
      | none ↦ (store, err invalid_json)
      | some serialized ↦
          if written
          then (record store { dirty = false }, ok (some serialized))
          else (store, err io)
    ]
