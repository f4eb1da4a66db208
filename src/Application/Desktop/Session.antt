-- ===== src/Application/Desktop/Session.antt =====
-- src/application/desktop_runtime.rs: what may happen to the controller, one after another: its
-- operations, the tasks it has started, the requests that arrive, and changes that others make to
-- the files of Codex.
use tokensaver.Prelude.{ℕ, Bool, Option, none, some, List, [], ◌∷◌, Str}
use tokensaver.Application.Connection.{ActiveConnection}
use tokensaver.Application.Desktop.{
  Controller, connect, disconnect, safe_shutdown, initialize, set_saving_enabled, set_min_bytes,
  set_frontier, set_preview_code_units, refresh_connection_health, record_observation,
  flush_persistent, with_server, update_status, server_failed,
}
use tokensaver.Codex.Toml.{Toml}
use tokensaver.Codex.Config.{CodexConfigSnapshot}
use tokensaver.Codex.Transaction.{Machine}
use tokensaver.Runtime.Status.{error}
use tokensaver.Application.Measurement.{TransportObservation}
use tokensaver.Telemetry.Store.{PersistentSavings}
use tokensaver.Transport.Admission.{Server, arrive, access, act}

pub data Command : Type 0 where
  connects : List ℕ → Command
  disconnects shuts_down refreshes flushes : Command
  launches : List ℕ → Bool → Command
  sets_saving_enabled : Bool → Command
  sets_min_bytes sets_frontier sets_preview_code_units : ℕ → Command
  -- a request arrives, the request with the number makes its next access, in which a load of
  -- `draining` reads the value, an observation comes in
  arrives : Command
  accesses : ℕ → Bool → Command
  observes : ℕ → TransportObservation → Str → Command
  -- the server's task ends in an error, the files of Codex are others, the file system's answers
  server_ends : Command
  codex_files : Machine → Command
  own_files : List Bool → Command

unfoldable pub serve : (Server → Server) → Option ActiveConnection → Option ActiveConnection
serve change none = none
serve change (some active) = some (with_server change active)

module _ (toml : Toml) (to_json : CodexConfigSnapshot → Option Str)
    (from_json : Str → Option CodexConfigSnapshot)
    (savings_to_json : PersistentSavings → Option Str) (bind : ℕ → Option ℕ) where
  unfoldable pub run : Command → Controller → Controller
  unfolding serve
  run (connects random) c = (connect toml to_json from_json savings_to_json bind random c).0
  run disconnects c = (disconnect toml to_json from_json savings_to_json bind c).0
  run shuts_down c = (safe_shutdown toml to_json from_json savings_to_json bind c).0
  run refreshes c = refresh_connection_health toml to_json from_json savings_to_json bind c
  run flushes c = (flush_persistent toml to_json from_json savings_to_json bind c).0
  run (launches random found) c =
      initialize toml to_json from_json savings_to_json bind random found c
  run (sets_saving_enabled enabled) c = (set_saving_enabled enabled c).0
  run (sets_min_bytes value) c = (set_min_bytes value c).0
  run (sets_frontier value) c = (set_frontier value c).0
  run (sets_preview_code_units value) c = (set_preview_code_units value c).0
  run arrives c = record c { connection = serve (act arrive) c.connection }
  run (accesses i draining) c = record c {
    connection = serve (act (access i draining)) c.connection;
  }
  run (observes now_epoch_ms observation local_day) c =
      record_observation now_epoch_ms observation local_day c
  run server_ends c =
      update_status
        (λ runtime. record runtime {
          service = error;
          codex = error;
          last_error = some server_failed;
        })
        c
  run (codex_files machine) c = record c { machine = machine }
  run (own_files answers) c = record c { answers = answers }

  unfoldable pub run_all : List Command → Controller → Controller
  run_all [] c = c
  run_all (command ∷ commands) c = run_all commands (run command c)
