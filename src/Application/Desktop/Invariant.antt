-- ===== src/Application/Desktop/Invariant.antt =====
-- src/application/desktop_runtime.rs: the invariant of the controller in any course of events.
use tokensaver.Prelude.{
  ℕ, ◌≡◌, refl, ◌∙◌, inl, inr, Bool, true, false, ◌||◌, Option, none, some, List, [], ◌∷◌,
  Bool-cases, Str, is_some,
}
use tokensaver.Application.Connection.{ActiveConnection, is_present}
use tokensaver.Application.Desktop.{
  Controller, Operation, with_server, set_min_bytes, set_frontier, set_preview_code_units,
  record_observation, refresh_connection_health, connect_with, connect, disconnect_internal,
  disconnect, safe_shutdown, launched, launch_where, start_control_server, initialize,
}
use tokensaver.Application.Desktop.Session.{
  run, run_all, Command, connects, disconnects, shuts_down, refreshes, flushes, launches,
  sets_saving_enabled, sets_min_bytes, sets_frontier, sets_preview_code_units, arrives, accesses,
  observes, server_ends, codex_files, own_files, serve,
}
use tokensaver.Application.Desktop.Laws.{
  IsConsistent, Serves, policy_setter-IsConsistent, set_saving_enabled-IsConsistent,
  flush-IsConsistent, refresh-IsConsistent, disconnect_with-IsConsistent, connect_with-IsConsistent,
}
use tokensaver.Codex.Toml.{Toml}
use tokensaver.Codex.Config.{CodexConfigSnapshot}
use tokensaver.Codex.Transaction.{snapshot_exists}
use tokensaver.Runtime.Preferences.{
  RuntimePreferences, of_min_bytes, of_frontier, of_preview_code_units,
}
use tokensaver.Telemetry.Store.{PersistentSavings}
use tokensaver.Transport.Admission.{Server, arrive, access, act}
use tokensaver.Transport.Admission.Laws.{IsAccounted, act-IsAccounted}

-- a step of a request
abbrev IsRequestStep : (Server → Server) → Type 0
IsRequestStep change =
    (server : Server)
    → IsAccounted server
    → IsAccounted (change server) × ((change server).draining ≡ server.draining)

serve-Serves :
    (p : RuntimePreferences) (change : Server → Server) (connection : Option ActiveConnection)
    → IsRequestStep change
    → Serves p connection
    → Serves p (serve change connection)
unfolding serve with_server
serve-Serves p change none step h = tt
serve-Serves p change (some active) step h =
    let (accounted, same) = step active.control.server h.accounted in
    record {
      accepts = same ∙ h.accepts;
      accounted = accounted;
      min_bytes = h.min_bytes;
      frontier = h.frontier;
      preview = h.preview;
    }

arrive-IsRequestStep : IsRequestStep (act arrive)
unfolding act
arrive-IsRequestStep server h = (act-IsAccounted arrive server h, refl)

access-IsRequestStep : (i : ℕ) (draining : Bool) → IsRequestStep (act (access i draining))
unfolding act
access-IsRequestStep i draining server h = (act-IsAccounted (access i draining) server h, refl)

module _ (toml : Toml) (to_json : CodexConfigSnapshot → Option Str)
    (from_json : Str → Option CodexConfigSnapshot)
    (savings_to_json : PersistentSavings → Option Str) (bind : ℕ → Option ℕ) where
  launched-IsConsistent :
      (op : Operation)
      → IsConsistent op.0
      → IsConsistent (launched toml to_json from_json savings_to_json bind op)
  unfolding launched
  launched-IsConsistent (c, none) h = h
  launched-IsConsistent (c, some e) h = h

  launch_where-IsConsistent :
      (random : List ℕ) (wanted : Bool) (c : Controller)
      → IsConsistent c
      → IsConsistent (launch_where toml to_json from_json savings_to_json bind random wanted c)
  unfolding launch_where connect
  launch_where-IsConsistent random true c h =
      launched-IsConsistent
        (connect_with toml to_json from_json savings_to_json bind random c.connection c)
        (connect_with-IsConsistent toml to_json from_json savings_to_json bind random c.connection c
          refl h)
  launch_where-IsConsistent random false c h = h

  control_server-IsConsistent :
      (found : Bool) (c : Controller)
      → IsConsistent c
      → IsConsistent (start_control_server toml to_json from_json savings_to_json bind found c)
  unfolding start_control_server
  control_server-IsConsistent true c h = h
  control_server-IsConsistent false c h = h

  shutdown-IsConsistent :
      (c : Controller)
      → IsConsistent c
      → IsConsistent (safe_shutdown toml to_json from_json savings_to_json bind c).0
  unfolding safe_shutdown disconnect_internal
  shutdown-IsConsistent c h = elim (Bool-cases (is_some c.connection)) [
    | inl open_one ↦ rw open_one (
        disconnect_with-IsConsistent toml to_json from_json savings_to_json bind false c.connection
          c refl h)
    | inr closed ↦ rw closed (flush-IsConsistent toml to_json from_json savings_to_json bind c h)
  ]

  run-IsConsistent :
      (command : Command) (c : Controller)
      → IsConsistent c
      → IsConsistent (run toml to_json from_json savings_to_json bind command c)
  unfolding run connect disconnect disconnect_internal refresh_connection_health initialize
      set_min_bytes set_frontier set_preview_code_units record_observation
  run-IsConsistent (connects random) c h =
      connect_with-IsConsistent toml to_json from_json savings_to_json bind random c.connection c
        refl h
  run-IsConsistent disconnects c h =
      disconnect_with-IsConsistent toml to_json from_json savings_to_json bind true c.connection c
        refl h
  run-IsConsistent shuts_down c h = shutdown-IsConsistent c h
  run-IsConsistent refreshes c h =
      refresh-IsConsistent toml to_json from_json savings_to_json bind c.connection c h
  run-IsConsistent flushes c h = flush-IsConsistent toml to_json from_json savings_to_json bind c h
  run-IsConsistent (launches random found) c h =
      let present = snapshot_exists c.machine in
      control_server-IsConsistent found _ (
        launch_where-IsConsistent random (is_present present.0 || c.preferences.connect_on_launch)
          (record c { machine = present.1 }) h)
  run-IsConsistent (sets_saving_enabled enabled) c h = set_saving_enabled-IsConsistent enabled c h
  run-IsConsistent (sets_min_bytes value) c h = policy_setter-IsConsistent (of_min_bytes value) c h
  run-IsConsistent (sets_frontier value) c h = policy_setter-IsConsistent (of_frontier value) c h
  run-IsConsistent (sets_preview_code_units value) c h =
      policy_setter-IsConsistent (of_preview_code_units value) c h
  run-IsConsistent arrives c (valid, serves) =
      (valid, serve-Serves c.preferences (act arrive) c.connection arrive-IsRequestStep serves)
  run-IsConsistent (accesses i draining) c (valid, serves) = (
    valid,
    serve-Serves c.preferences (act (access i draining)) c.connection
        (access-IsRequestStep i draining) serves,
  )
  run-IsConsistent (observes now_epoch_ms observation local_day) c h = h
  run-IsConsistent server_ends c h = h
  run-IsConsistent (codex_files machine) c h = h
  run-IsConsistent (own_files answers) c h = h

  -- In any course of operations, requests, observations, failures of files and changes that others
  -- make to the files of Codex: the preferences stay valid, and while there is a connection its
  -- server admits requests, counts its guards, and has the limits of the preferences.
  pub run_all-IsConsistent :
      (commands : List Command) (c : Controller)
      → IsConsistent c
      → IsConsistent (run_all toml to_json from_json savings_to_json bind commands c)
  unfolding run_all
  run_all-IsConsistent [] c h = h
  run_all-IsConsistent (command ∷ commands) c h =
      run_all-IsConsistent commands (run toml to_json from_json savings_to_json bind command c)
        (run-IsConsistent command c h)
