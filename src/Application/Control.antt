-- ===== src/Application/Control.antt =====
-- src/application/control.rs: the commands of the local control socket. The socket, its limits and
-- the JSON of its lines are left out. The texts of the errors below the controller's own hold what
-- the operating system and the parsers say, and are an argument.
pub mod Laws
use tokensaver.Prelude.{
  ℕ, Bool, true, false, Option, none, some, List, ◌++◌, if◌then◌else◌, Str, codes, str_eq, decimal,
}
use tokensaver.Application.Desktop.{
  Controller, Operation, DesktopRuntimeError, Notice, preferences_error, savings_error, codex_error,
  active_requests, policy_change_requires_disconnect, connect, disconnect, set_saving_enabled,
  set_min_bytes, set_frontier, set_preview_code_units,
}
use tokensaver.Application.Desktop.View.{
  DesktopRuntimeSnapshot, AgingPolicyView, SavingsView, DesktopServiceState, DesktopCodexState,
  snapshot,
}
use tokensaver.Application.Desktop.View
use tokensaver.Codex.Toml.{Toml}
use tokensaver.Codex.Config.{CodexConfigSnapshot}
use tokensaver.Application.Connection.{CodexConnectionError}
use tokensaver.Runtime.Preferences.{RuntimePreferencesError, invalid_value}
use tokensaver.Security.{redact_local_secrets}
use tokensaver.Telemetry.Store.{PersistentSavings, SavingsStoreError}

pub data ControlRequest : Type 0 where
  status connect_codex disconnect_codex stats config_show : ControlRequest
  saving : Bool → ControlRequest
  config_set : Str → ℕ → ControlRequest

pub record ControlSnapshot : Type 0 where
  pub service : Str
  pub codex : Str
  pub saving_enabled : Bool
  pub connect_on_launch : Bool
  pub active_requests : ℕ
  pub dropped_telemetry_observations : ℕ
  pub policy : AgingPolicyView
  pub session : SavingsView
  pub today : SavingsView
  pub all_time : SavingsView
  pub last_error : Option Str

-- `Display` of the errors that the controller passes on, and the texts of its notices
pub record Texts : Type 0 where
  pub preferences : RuntimePreferencesError → Str
  pub savings : SavingsStoreError → Str
  pub codex : CodexConnectionError → Str
  pub notice : Notice → Str

-- `Display` of `DesktopRuntimeError`
unfoldable pub to_string : Texts → DesktopRuntimeError → Str
to_string texts (preferences_error e) = codes "runtime preferences failed: " ++ texts.preferences e
to_string texts (savings_error e) = codes "savings persistence failed: " ++ texts.savings e
to_string texts (codex_error e) = codes "Codex connection failed: " ++ texts.codex e
to_string texts (active_requests count) =
    codes "cannot disconnect TokenSaver while "
    ++ (decimal count ++ codes " Codex request(s) are still active")
to_string texts policy_change_requires_disconnect =
    codes "disconnect Codex before changing aging thresholds or preview policy"

pub record ControlResponse : Type 0 where
  pub success : Bool
  pub message : Option Str
  pub shown : Option ControlSnapshot

service_text : DesktopServiceState → Str
service_text View.starting = codes "starting"
service_text View.running = codes "running"
service_text View.error = codes "error"

codex_text : DesktopCodexState → Str
codex_text View.disconnected = codes "disconnected"
codex_text View.connecting = codes "connecting"
codex_text View.connected = codes "connected"
codex_text View.drifted = codes "drifted"
codex_text View.error = codes "error"

-- `last_error.map(|message| redact_local_secrets(&message))`
redacted_notice : Texts → Option Notice → Option Str
redacted_notice texts none = none
redacted_notice texts (some notice) = redact_local_secrets (texts.notice notice)

-- `ControlPolicy` and `ControlSavings` repeat the fields of the views that they are made from.
unfoldable pub snapshot_to_control : Texts → DesktopRuntimeSnapshot → ControlSnapshot
unfolding service_text codex_text redacted_notice
snapshot_to_control texts s = record {
  service = service_text s.service;
  codex = codex_text s.codex;
  saving_enabled = s.saving_enabled;
  connect_on_launch = s.connect_on_launch;
  active_requests = s.active_requests;
  dropped_telemetry_observations = s.dropped_telemetry_observations;
  policy = s.policy;
  session = s.session;
  today = s.today;
  all_time = s.all_time;
  last_error = redacted_notice texts s.last_error;
}

-- an operation, and what is said of it where it succeeds
abbrev pub Handled : Type 0
Handled = Operation × Option Str

response_of : Texts → Option DesktopRuntimeError → Option Str → ControlSnapshot → ControlResponse
response_of texts none text shown = record { success = true; message = text; shown = some shown }
response_of texts (some e) text shown = record {
  success = false;
  message = redact_local_secrets (to_string texts e);
  shown = some shown;
}

-- `match key.as_str()`
config_set_for : Str → ℕ → Controller → Handled
config_set_for key value c =
    if str_eq key (codes "min-bytes")
    then (set_min_bytes value c, some (codes "min-bytes set to " ++ decimal value))
    else if str_eq key (codes "frontier")
    then (set_frontier value c, some (codes "frontier set to " ++ decimal value))
    else if str_eq key (codes "preview-code-units")
    then (
      set_preview_code_units value c,
      some (codes "preview-code-units set to " ++ decimal value),
    )
    else ((c, some (preferences_error (invalid_value (codes "unknown aging policy key")))), none)

module _ (toml : Toml) (to_json : CodexConfigSnapshot → Option Str)
    (from_json : Str → Option CodexConfigSnapshot)
    (savings_to_json : PersistentSavings → Option Str) (bind : ℕ → Option ℕ) where
  pub dispatch : List ℕ → ControlRequest → Controller → Handled
  unfolding config_set_for
  dispatch random status c = ((c, none), none)
  dispatch random stats c = ((c, none), none)
  dispatch random config_show c = ((c, none), none)
  dispatch random connect_codex c =
      (connect toml to_json from_json savings_to_json bind random c, some (codes "Codex connected"))
  dispatch random disconnect_codex c =
      (disconnect toml to_json from_json savings_to_json bind c, some (codes "Codex disconnected"))
  dispatch random (saving enabled) c = (
    set_saving_enabled enabled c,
    some (codes "token saving " ++ (if enabled then codes "enabled" else codes "disabled")),
  )
  dispatch random (config_set key value) c = config_set_for key value c

  respond : Texts → Str → Handled → Controller × ControlResponse
  unfolding response_of
  respond texts local_day ((c, failure), text) =
      let fresh = snapshot toml to_json from_json savings_to_json bind local_day c in
      (fresh.0, response_of texts failure text (snapshot_to_control texts fresh.1))

  unfoldable pub handle_request :
      Texts → List ℕ → Str → ControlRequest → Controller → Controller × ControlResponse
  unfolding dispatch respond
  handle_request texts random local_day request c =
      respond texts local_day (dispatch random request c)
