-- ===== src/Application/Desktop/Opening.antt =====
-- src/application/desktop_runtime.rs: `open` of the controller, from what its two files hold.
use tokensaver.Prelude.{ℕ, ◌≡◌, refl, Bool, true, false, Option, none, List, [], if◌then◌else◌, Str}
use tokensaver.Application.Desktop.{
  Controller, DesktopRuntimeError, preferences_error, savings_error,
}
use tokensaver.Application.Desktop.Laws.{IsConsistent}
use tokensaver.Codex.Transaction.{Machine}
use tokensaver.Runtime.Preferences
use tokensaver.Runtime.Preferences.{
  RuntimePreferences, Reading, Outcome, ok, err, ToJson, FromJson, open_store,
}
use tokensaver.Runtime.Preferences.Laws.{open_store-IsValid}
use tokensaver.Runtime.Status.{starting, disconnected, default_status}
use tokensaver.Telemetry.Store
use tokensaver.Telemetry.Store.{DurableSavingsStore, PersistentSavings, ReadFile, StoreResult}

-- `Result<Self, DesktopRuntimeError>`, where the data directory may also be refused
pub data Opening : Type 0 where
  opened : Controller → Opening
  no_directory : Opening
  failed : DesktopRuntimeError → Opening

new_controller :
    ToJson → RuntimePreferences → DurableSavingsStore → ℕ → Machine → List Bool → Controller
new_controller preferences_to_json preferences durable_savings session_id machine answers = record {
  connection = none;
  status = record default_status {
    service = starting;
    codex = disconnected;
    saving_enabled = preferences.saving_enabled;
  };
  preferences = preferences;
  preferences_to_json = preferences_to_json;
  saved_preferences = none;
  session_ledger = record { events = [] };
  durable_savings = durable_savings;
  session_id = session_id;
  machine = machine;
  answers = answers;
}

open_savings :
    ToJson
    → RuntimePreferences
    → StoreResult DurableSavingsStore
    → ℕ
    → Machine
    → List Bool
    → Opening
unfolding new_controller
open_savings preferences_to_json preferences (Store.err e) session_id machine answers =
    failed (savings_error e)
open_savings preferences_to_json preferences (Store.ok durable_savings) session_id machine answers =
    opened
      (new_controller preferences_to_json preferences durable_savings session_id machine answers)

open_preferences :
    ToJson
    → Outcome RuntimePreferences
    → StoreResult DurableSavingsStore
    → ℕ
    → Machine
    → List Bool
    → Opening
unfolding open_savings
open_preferences preferences_to_json (err e) savings session_id machine answers =
    failed (preferences_error e)
open_preferences preferences_to_json (ok preferences) savings session_id machine answers =
    open_savings preferences_to_json preferences savings session_id machine answers

-- `open`, where `directory` is whether the data directory is made and given its mode
unfoldable pub open_controller :
    ToJson
    → FromJson
    → (Str → Option PersistentSavings)
    → Bool
    → Reading
    → ReadFile
    → ℕ
    → Machine
    → List Bool
    → Opening
unfolding open_preferences
open_controller preferences_to_json preferences_from_json savings_from_json directory preferences
      savings session_id machine answers =
    if directory
    then open_preferences preferences_to_json
        (Preferences.open_store preferences_from_json preferences)
        (Store.open_store savings_from_json savings) session_id machine answers
    else no_directory

abbrev AllConsistent : Opening → Type 0
AllConsistent (opened c) = IsConsistent c
AllConsistent _ = Unit

open_savings-AllConsistent :
    (preferences_to_json : ToJson) (preferences_from_json : FromJson) (reading : Reading)
    (p : RuntimePreferences) (savings : StoreResult DurableSavingsStore) (session_id : ℕ)
    (machine : Machine) (answers : List Bool)
    → Preferences.open_store preferences_from_json reading ≡ ok p
    → AllConsistent (open_savings preferences_to_json p savings session_id machine answers)
unfolding open_savings new_controller
open_savings-AllConsistent preferences_to_json preferences_from_json reading p (Store.err e)
      session_id machine answers h =
    tt
open_savings-AllConsistent preferences_to_json preferences_from_json reading p (Store.ok store)
      session_id machine answers h =
    (open_store-IsValid preferences_from_json reading p h, tt)

open_preferences-AllConsistent :
    (preferences_to_json : ToJson) (preferences_from_json : FromJson) (reading : Reading)
    (found : Outcome RuntimePreferences) (savings : StoreResult DurableSavingsStore)
    (session_id : ℕ) (machine : Machine) (answers : List Bool)
    → Preferences.open_store preferences_from_json reading ≡ found
    → AllConsistent (open_preferences preferences_to_json found savings session_id machine answers)
unfolding open_preferences
open_preferences-AllConsistent preferences_to_json preferences_from_json reading (err e) savings
      session_id machine answers h =
    tt
open_preferences-AllConsistent preferences_to_json preferences_from_json reading (ok p) savings
      session_id machine answers h =
    open_savings-AllConsistent preferences_to_json preferences_from_json reading p savings
      session_id machine answers h

-- A controller that is opened is consistent, whatever its files hold.
open_controller-AllConsistent :
    (preferences_to_json : ToJson) (preferences_from_json : FromJson)
    (from_json : Str → Option PersistentSavings) (directory : Bool) (reading : Reading)
    (savings : ReadFile) (session_id : ℕ) (machine : Machine) (answers : List Bool)
    → AllConsistent (
        open_controller preferences_to_json preferences_from_json from_json directory reading
          savings session_id machine answers)
unfolding open_controller
open_controller-AllConsistent preferences_to_json preferences_from_json from_json true reading
      savings session_id machine answers =
    open_preferences-AllConsistent preferences_to_json preferences_from_json reading
      (Preferences.open_store preferences_from_json reading) (Store.open_store from_json savings)
      session_id machine answers refl
open_controller-AllConsistent preferences_to_json preferences_from_json from_json false reading
      savings session_id machine answers =
    tt
