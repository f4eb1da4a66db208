-- ===== src/Tests/Desktop.antt =====
-- Runs of src/application: the controller that connects, is refused, restarts and disconnects.
use tokensaver.Prelude.{
  codes, ℕ, ◌≡◌, refl, ◌⊎◌, true, false, Option, none, some, List, [], ◌∷◌, arith, ◌==◌,
  if◌then◌else◌, Str,
}
use tokensaver.Application.Connection.{
  ActiveConnection, ready, codex_base_url, prepare_native_codex_connection_at,
}
use tokensaver.Application.Connection.Restart.{control_at, prepare-restart}
use tokensaver.Application.Control.{Texts, config_set, dispatch, handle_request}
use tokensaver.Application.Control.Laws.{IsAnswered, handle_request-IsAnswered}
use tokensaver.Application.Desktop.{Controller, connect, disconnect, disconnect_internal}
use tokensaver.Application.Desktop.Laws.{IsServing, IsConsistent}
use tokensaver.Application.Desktop.Invariant.{run_all-IsConsistent}
use tokensaver.Application.Desktop.Refusals.{IsClosed, IsRefused, disconnect_internal-ends}
use tokensaver.Application.Desktop.RoundTrip.{
  idle_controller, ConnectsAndDisconnects, disconnect-connect_desktop,
}
use tokensaver.Application.Desktop.Session.{
  Command, run_all, connects, arrives, accesses, disconnects, sets_saving_enabled, sets_min_bytes,
  own_files,
}
use tokensaver.Aging.Model.{default_policy}
use tokensaver.Codex.Transaction.{booted}
use tokensaver.Runtime.Preferences.{default_preferences}
use tokensaver.Runtime.Preferences.Laws.{IsValid}
use tokensaver.Runtime.Status.{default_status}
use tokensaver.Telemetry.Store.{PersistentSavings, default_savings}
use tokensaver.Transport.Capability.{generate}
use tokensaver.Tests.Entries.{entries_toml, entries_laws, print_entries}
use tokensaver.Tests.Fixtures.{
  random, before, during, taken, fields, connected_text, to_json, from_json, reads_back, small,
}

savings_to_json : PersistentSavings → Option Str
savings_to_json savings = some []

bind : ℕ → Option ℕ
bind port = if port == 0 then some 43117 else some port

abbrev launched : Controller
launched = record {
  connection = none;
  status = default_status;
  preferences = default_preferences;
  preferences_to_json = λ _. some (codes "{}");
  saved_preferences = none;
  session_ledger = record { events = [] };
  durable_savings = record { state = default_savings; dirty = true };
  session_id = 7;
  machine = booted (record { config = some (print_entries before); snapshot = none });
  answers = [];
}

default_preferences-IsValid : IsValid default_preferences
default_preferences-IsValid = (refl, omega arith, omega arith, omega arith, omega arith)

launched-IsConsistent : IsConsistent launched
launched-IsConsistent = (default_preferences-IsValid, tt)

abbrev commands : List Command
commands =
    connects random
    ∷ arrives
    ∷ accesses 0 false
    ∷ accesses 0 false
    ∷ disconnects
    ∷ sets_min_bytes 100
    ∷ own_files (false ∷ [])
    ∷ sets_saving_enabled true
    ∷ []

run_all-IsConsistent_example :
    IsConsistent (run_all entries_toml to_json from_json savings_to_json bind commands launched)
run_all-IsConsistent_example =
    run_all-IsConsistent entries_toml to_json from_json savings_to_json bind commands launched
      launched-IsConsistent

abbrev active : ActiveConnection
active = record { snapshot = taken; control = control_at 43117 (generate random) default_policy }

abbrev connected_one : Controller
connected_one = record launched {
  connection = some active;
  machine = booted (record {
    config = some (print_entries during);
    snapshot = some (print_entries (fields taken));
  });
}

active-IsServing : IsServing default_preferences active
active-IsServing = record {
  accepts = refl;
  accounted = (refl, omega arith);
  min_bytes = refl;
  frontier = refl;
  preview = refl;
}

disconnect_internal-ends_example :
    IsClosed entries_toml to_json from_json savings_to_json bind connected_one active
      (disconnect_internal entries_toml to_json from_json savings_to_json bind true connected_one)
    ⊎ IsRefused entries_toml to_json from_json savings_to_json bind connected_one
        (disconnect_internal entries_toml to_json from_json savings_to_json bind true connected_one)
disconnect_internal-ends_example =
    disconnect_internal-ends entries_toml to_json from_json savings_to_json bind true connected_one
      active (default_preferences-IsValid, active-IsServing) refl

bound : bind 0 ≡ some 43117
unfolding bind
bound = refl

bound_again : bind 43117 ≡ some 43117
unfolding bind
bound_again = refl

written : to_json taken ≡ some (print_entries (fields taken))
unfolding to_json
written = refl

prints : savings_to_json default_savings ≡ some []
unfolding savings_to_json
prints = refl

disconnect-connect_desktop_example :
    ConnectsAndDisconnects entries_toml
      (some (print_entries before))
      (connect entries_toml to_json from_json savings_to_json bind random
        (idle_controller launched (some (print_entries before))))
      (disconnect entries_toml to_json from_json savings_to_json bind
        (connect entries_toml to_json from_json savings_to_json bind random
          (idle_controller launched (some (print_entries before)))).0)
disconnect-connect_desktop_example =
    disconnect-connect_desktop entries_toml to_json from_json savings_to_json bind entries_laws
      random 43117 launched (some (print_entries before)) taken (print_entries during)
      (print_entries (fields taken)) [] (codes "{}") (codes "{}") default_preferences-IsValid refl
      refl bound connected_text written (reads_back taken (print_entries (fields taken)) written)
      prints

prepare-restart_example :
    (again : ActiveConnection) × (prepare_native_codex_connection_at entries_toml to_json from_json
        bind [] 0 default_policy
        (booted (record {
          config = some (print_entries during);
          snapshot = some (print_entries (fields taken));
        }))
      ≡ (
        ready again,
        booted (record {
          config = some (print_entries during);
          snapshot = some (print_entries (fields taken));
        }),
      ))
    × (codex_base_url again.control ≡ taken.installed_openai_base_url)
prepare-restart_example =
    prepare-restart entries_toml to_json from_json entries_laws bind [] random 43117 0
      default_policy (print_entries before) (print_entries during) (print_entries (fields taken))
      taken (omega arith) (omega arith) refl (small 32) connected_text
      (reads_back taken (print_entries (fields taken)) written) bound_again

abbrev texts : Texts
texts = record {
  preferences = λ _. codes "invalid runtime preference";
  savings = λ _. codes "savings";
  codex = λ _. codes "no answer from http://127.0.0.1:43117/0123abcd/v1";
  notice = λ _. codes "Codex is at http://127.0.0.1:43117/0123abcd/v1, not here";
}

handle_request-IsAnswered_example :
    IsConsistent
      (handle_request entries_toml to_json from_json savings_to_json bind texts random []
        (config_set (codes "min-bytes") 100)
        connected_one).0
    × IsAnswered texts
        (dispatch entries_toml to_json from_json savings_to_json bind random
          (config_set (codes "min-bytes") 100)
          connected_one).0.1
        (handle_request entries_toml to_json from_json savings_to_json bind texts random []
          (config_set (codes "min-bytes") 100)
          connected_one)
handle_request-IsAnswered_example =
    handle_request-IsAnswered entries_toml to_json from_json savings_to_json bind texts random []
      (config_set (codes "min-bytes") 100) connected_one
      (default_preferences-IsValid, active-IsServing)
