-- ===== src/Application/Desktop.antt =====
-- src/application/desktop_runtime.rs: the controller of the running program. Each operation is one
-- step, and a task that the controller starts acts between them. Every access of a file is answered
-- by the environment, and each error is kept as it is, not as a text.
pub mod View
pub mod Laws
pub mod Session
pub mod Invariant
pub mod Refusals
pub mod RoundTrip
pub mod Opening
use tokensaver.Prelude.{
  ℕ, Bool, true, false, ◌||◌, Option, none, some, List, [], ◌∷◌, ltb, if◌then◌else◌, Str, is_some,
}
use tokensaver.Aging.Model.{AgingPolicy}
use tokensaver.Application.Measurement.{TransportObservation, event_from_transport_observation}
use tokensaver.Application.Connection.{
  CodexConnectionError, Connecting, TransportControl, ActiveConnection, ready, refused,
  prepare_native_codex_connection_at, disconnect_native_codex, is_present,
}
use tokensaver.Codex.Toml.{Toml}
use tokensaver.Codex.Config.{
  CodexConfigSnapshot, CodexConfigError, CodexConnectionState, Checked, ok, err, connected, drifted,
  not_connected,
}
use tokensaver.Codex.Transaction.{
  Machine, head_answer, snapshot_exists, connection_state_with_snapshot,
}
use tokensaver.Runtime.Preferences.{
  RuntimePreferences, RuntimePreferencesError, Setting, of_saving_enabled, of_connect_on_launch,
  of_min_bytes, of_frontier, of_preview_code_units, ToJson, apply,
}
use tokensaver.Runtime.Status
use tokensaver.Runtime.Status.{
  RuntimeStatus, ServiceStatus, CodexStatus, starting, running, error, disconnected, connecting,
  default_status,
}
use tokensaver.Telemetry.Model.{OptimizationEvent}
use tokensaver.Telemetry.Store
use tokensaver.Telemetry.Store.{
  DurableSavingsStore, PersistentSavings, SavingsStoreError, StoreResult, record_savings, flush,
}
use tokensaver.Telemetry.Summary.{SavingsLedger, record_event}
use tokensaver.Transport.Admission.{Server, Action, act, begin_drain, resume_accepting}

pub data DesktopRuntimeError : Type 0 where
  preferences_error : RuntimePreferencesError → DesktopRuntimeError
  savings_error : SavingsStoreError → DesktopRuntimeError
  codex_error : CodexConnectionError → DesktopRuntimeError
  active_requests : ℕ → DesktopRuntimeError
  policy_change_requires_disconnect : DesktopRuntimeError

-- what `last_error` is the text of
pub data Notice : Type 0 where
  of_connection : CodexConnectionError → Notice
  of_config : CodexConfigError → Notice
  launch_failed : DesktopRuntimeError → Notice
  configuration_changed no_longer_points server_failed control_failed : Notice

-- `answers` is what the file system says to the writes of the program's own two files, success
-- where the list ends; `saved_preferences` is the text that the preferences' file was last given, and
-- `preferences_to_json` is the function of serde_json that makes it.
pub record Controller : Type 0 where
  pub connection : Option ActiveConnection
  pub status : RuntimeStatus Notice
  pub preferences : RuntimePreferences
  pub preferences_to_json : ToJson
  pub saved_preferences : Option Str
  pub session_ledger : SavingsLedger
  pub durable_savings : DurableSavingsStore
  pub session_id : ℕ
  pub machine : Machine
  pub answers : List Bool

-- What an operation leaves, and its error if it has one.
abbrev pub Operation : Type 0
Operation = Controller × Option DesktopRuntimeError

-- the operation goes on with `k` unless there is an error
unfoldable pub proceed : Operation → (Controller → Operation) → Operation
proceed (c, none) k = k c
proceed (c, some e) k = (c, some e)

abbrev pub tail_answers : List Bool → List Bool
tail_answers [] = []
tail_answers (_ ∷ answers) = answers

or_before : Option Str → Option Str → Option Str
or_before (some written) before = some written
or_before none before = before

preferences_failure : Option RuntimePreferencesError → Option DesktopRuntimeError
preferences_failure none = none
preferences_failure (some e) = some (preferences_error e)

-- a setter of the preferences' store
unfoldable pub change_preferences : Setting → Controller → Operation
unfolding head_answer or_before preferences_failure
change_preferences setting c =
    let saved = apply c.preferences_to_json (head_answer c.answers) setting c.preferences in
    (
      record c {
        preferences = saved.memory;
        saved_preferences = or_before saved.written c.saved_preferences;
        answers = tail_answers c.answers;
      },
      preferences_failure saved.failure,
    )

unfoldable pub policy_from_preferences : RuntimePreferences → AgingPolicy
policy_from_preferences preferences = record {
  enabled = preferences.saving_enabled;
  min_bytes = preferences.min_bytes;
  frontier = preferences.frontier;
  preview_code_units = preferences.preview_code_units;
}

-- `status.update`
abbrev pub update_status : (RuntimeStatus Notice → RuntimeStatus Notice) → Controller → Controller
update_status update c = record c { status = update c.status }

unfoldable pub set_enabled : Bool → ActiveConnection → ActiveConnection
set_enabled enabled active = record active {
  control = record active.control {
    aging_policy = record active.control.aging_policy { enabled = enabled };
  };
}

-- the connection with another state of its server
unfoldable pub with_server : (Server → Server) → ActiveConnection → ActiveConnection
with_server change active = record active {
  control = record active.control { server = change active.control.server };
}

set_saving_on : Bool → Option ActiveConnection → Option ActiveConnection
unfolding set_enabled
set_saving_on enabled none = none
set_saving_on enabled (some active) = some (set_enabled enabled active)

unfoldable pub set_saving_enabled : Bool → Controller → Operation
unfolding set_saving_on
set_saving_enabled enabled c = proceed (change_preferences (of_saving_enabled enabled) c) (λ c. (
  update_status (λ runtime. record runtime { saving_enabled = enabled; last_error = none })
      (record c { connection = set_saving_on enabled c.connection }),
  none,
))

-- `ensure_disconnected_for_policy_change`
unfoldable pub ensure_disconnected_for_policy_change : Controller → Option DesktopRuntimeError
ensure_disconnected_for_policy_change c =
    if is_some c.connection then some policy_change_requires_disconnect else none

unfoldable pub set_min_bytes : ℕ → Controller → Operation
set_min_bytes value c =
    proceed (c, ensure_disconnected_for_policy_change c) (change_preferences (of_min_bytes value))

unfoldable pub set_frontier : ℕ → Controller → Operation
set_frontier value c =
    proceed (c, ensure_disconnected_for_policy_change c) (change_preferences (of_frontier value))

unfoldable pub set_preview_code_units : ℕ → Controller → Operation
set_preview_code_units value c =
    proceed (c, ensure_disconnected_for_policy_change c)
      (change_preferences (of_preview_code_units value))

savings_failure : {A : Type 0} → StoreResult A → Option DesktopRuntimeError
savings_failure (Store.ok _) = none
savings_failure (Store.err e) = some (savings_error e)

-- one turn of the task that records what comes out of the channel of observations
unfoldable pub record_observation : ℕ → TransportObservation → Str → Controller → Controller
record_observation now_epoch_ms observation local_day c =
    let event = event_from_transport_observation now_epoch_ms c.session_id observation none in
    record c {
      session_ledger = record_event c.session_ledger event;
      durable_savings = record_savings c.durable_savings event local_day;
    }

-- how the health of a connection changes the status
unfoldable pub connection_health :
    Checked CodexConnectionState → RuntimeStatus Notice → RuntimeStatus Notice
connection_health (ok connected) runtime = elim runtime.service [
  | error ↦ record runtime { codex = error }
  | _ ↦ record runtime { service = running; codex = Status.connected; last_error = none }
]
connection_health (ok drifted) runtime = record runtime {
  codex = Status.drifted;
  last_error = some configuration_changed;
}
connection_health (ok not_connected) runtime = record runtime {
  codex = error;
  last_error = some no_longer_points;
}
connection_health (err e) runtime = record runtime {
  codex = error;
  last_error = some (of_config e);
}

idle_status : RuntimeStatus Notice → RuntimeStatus Notice
idle_status runtime = record runtime {
  service = running;
  codex = disconnected;
  active_requests = 0;
}

module _ (toml : Toml) (to_json : CodexConfigSnapshot → Option Str)
    (from_json : Str → Option CodexConfigSnapshot)
    (savings_to_json : PersistentSavings → Option Str) (bind : ℕ → Option ℕ) where
  unfoldable pub flush_persistent : Controller → Operation
  unfolding head_answer savings_failure
  flush_persistent c =
      let flushed = flush savings_to_json (head_answer c.answers) c.durable_savings in
      (
        record c { durable_savings = flushed.0; answers = tail_answers c.answers },
        savings_failure flushed.1,
      )

  unfoldable pub refresh_active : ActiveConnection → Controller → Controller
  unfolding connection_health
  refresh_active active c =
      let state = connection_state_with_snapshot toml to_json from_json c.machine in
      record c {
        machine = state.1;
        status =
            connection_health state.0
              (record c.status { active_requests = active.control.server.active_requests });
      }

  unfoldable pub refresh_with : Option ActiveConnection → Controller → Controller
  unfolding refresh_active idle_status
  refresh_with none c = update_status idle_status c
  refresh_with (some active) c = refresh_active active c

  unfoldable pub refresh_connection_health : Controller → Controller
  unfolding refresh_with
  refresh_connection_health c = refresh_with c.connection c

  -- what becomes of the prepared connection
  established : Connecting ActiveConnection → Controller → Operation
  established (refused e) c = (
    update_status
        (λ runtime. record runtime {
          service = running;
          codex = error;
          last_error = some (of_connection e);
        })
        c,
    some (codex_error e),
  )
  established (ready active) c = (
    update_status
        (λ runtime. record runtime {
          service = running;
          codex = Status.connected;
          saving_enabled = c.preferences.saving_enabled;
          active_requests = 0;
          last_error = none;
        })
        (record c { connection = some active }),
    none,
  )

  prepare_and_open : List ℕ → Controller → Operation
  unfolding established
  prepare_and_open random c =
      let starting_up =
        update_status
          (λ runtime. record runtime { service = starting; codex = connecting; last_error = none })
          c in
      let prepared =
        prepare_native_codex_connection_at toml to_json from_json bind random 0
          (policy_from_preferences c.preferences) c.machine in
      established prepared.0 (record starting_up { machine = prepared.1 })

  pub connect_with : List ℕ → Option ActiveConnection → Controller → Operation
  unfolding prepare_and_open
  connect_with random (some _) c = (refresh_connection_health c, none)
  connect_with random none c =
      proceed (change_preferences (of_connect_on_launch true) c) (prepare_and_open random)

  unfoldable pub connect : List ℕ → Controller → Operation
  unfolding connect_with
  connect random c = connect_with random c.connection c

  -- `if clear_connect_preference { .. set_connect_on_launch(false)? }`
  clear_preference : Bool → Controller → Operation
  clear_preference true c = change_preferences (of_connect_on_launch false) c
  clear_preference false c = (c, none)

  disconnect_idle : Bool → Controller → Operation
  unfolding clear_preference idle_status
  disconnect_idle clear_connect_preference c =
      proceed (clear_preference clear_connect_preference c)
        (λ c. flush_persistent (update_status idle_status c))

  -- after the Codex files have been asked to be as they were
  restored_codex : Bool → ActiveConnection → Connecting CodexConfigSnapshot → Controller → Operation
  unfolding clear_preference
  restored_codex clear_connect_preference drained (refused e) c = (
    update_status
        (λ runtime. record runtime {
          service = running;
          codex = error;
          last_error = some (of_connection e);
        })
        (record c { connection = some (with_server resume_accepting drained) }),
    some (codex_error e),
  )
  restored_codex clear_connect_preference drained (ready _) c =
      proceed (clear_preference clear_connect_preference (record c { connection = none })) (λ c.
        flush_persistent (
          update_status
            (λ runtime. record runtime {
              service = running;
              codex = disconnected;
              active_requests = 0;
              last_error = none;
            })
            c))

  disconnect_active : Bool → ActiveConnection → Controller → Operation
  unfolding restored_codex
  disconnect_active clear_connect_preference active c =
      let drain = begin_drain active.control.server in
      let drained = with_server (λ _. drain.0) active in
      if ltb 0 drain.1
      then (
        update_status (λ runtime. record runtime { active_requests = drain.1 })
            (record c { connection = some (with_server resume_accepting drained) }),
        some (active_requests drain.1),
      )
      else (let result = disconnect_native_codex toml to_json from_json c.machine in
          restored_codex clear_connect_preference drained result.0
            (record c { machine = result.1 }))

  pub disconnect_with : Bool → Option ActiveConnection → Controller → Operation
  unfolding disconnect_idle disconnect_active
  disconnect_with clear_connect_preference none c = disconnect_idle clear_connect_preference c
  disconnect_with clear_connect_preference (some active) c =
      disconnect_active clear_connect_preference active c

  unfoldable pub disconnect_internal : Bool → Controller → Operation
  unfolding disconnect_with
  disconnect_internal clear_connect_preference c =
      disconnect_with clear_connect_preference c.connection c

  unfoldable pub disconnect : Controller → Operation
  disconnect c = disconnect_internal true c

  unfoldable pub safe_shutdown : Controller → Operation
  safe_shutdown c = if is_some c.connection then disconnect_internal false c else flush_persistent c

  -- the status after the first connection of a launch
  launched : Operation → Controller
  launched (c, none) = c
  launched (c, some e) =
      update_status
        (λ runtime. record runtime {
          service = running;
          codex = error;
          last_error = some (launch_failed e);
        })
        c

  launch_where : List ℕ → Bool → Controller → Controller
  unfolding launched
  launch_where random true c = launched (connect random c)
  launch_where random false c =
      update_status
        (λ runtime. record runtime { service = running; codex = disconnected; last_error = none }) c

  -- `start_control_server`, where `found` is whether the socket's path is
  start_control_server : Bool → Controller → Controller
  start_control_server true c = c
  start_control_server false c =
      update_status
        (λ runtime. record runtime { service = error; last_error = some control_failed }) c

  unfoldable pub initialize : List ℕ → Bool → Controller → Controller
  unfolding launch_where start_control_server is_present
  initialize random found c =
      let present = snapshot_exists c.machine in
      start_control_server found (
        launch_where random (is_present present.0 || c.preferences.connect_on_launch)
          (record c { machine = present.1 }))
