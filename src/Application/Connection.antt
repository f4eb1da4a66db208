-- ===== src/Application/Connection.antt =====
-- src/application/codex_connection.rs: the endpoint of a connection, bound before Codex is pointed
-- at it. What the operating system answers when a port is bound, and the random bytes of a new
-- capability, are arguments; the channel of observations is left out.
pub mod Bound
pub mod Restart
use tokensaver.Prelude.{ℕ, Bool, true, false, Option, none, some, List, [], Str}
use tokensaver.Aging.Model.{AgingPolicy}
use tokensaver.Codex.Toml.{Toml}
use tokensaver.Codex.Config.{CodexConfigSnapshot, CodexConfigError, Checked, ok, err}
use tokensaver.Codex.Transaction.{
  Machine, snapshot_exists, load_config_snapshot, connect_with_snapshot, disconnect_with_snapshot,
}
use tokensaver.Transport.Admission.{Server}
use tokensaver.Transport.Capability.{
  CallerCapability, generate, loopback_base_url, from_loopback_base_url,
}

pub data CodexConnectionError : Type 0 where
  config : CodexConfigError → CodexConnectionError
  transport : CodexConnectionError
  invalid_persisted_endpoint : Str → CodexConnectionError

pub data Connecting {ℓ} (A : Type ℓ) : Type ℓ where
  ready : A → Connecting A
  refused : CodexConnectionError → Connecting A

-- `TransportSettings`
pub record TransportSettings : Type 0 where
  pub bind_port : ℕ
  pub capability : CallerCapability
  pub aging_policy : AgingPolicy

-- `TransportControl`
pub record TransportControl : Type 0 where
  pub port : ℕ
  pub capability : CallerCapability
  pub aging_policy : AgingPolicy
  pub server : Server
  pub dropped_observations : ℕ

unfoldable pub codex_base_url : TransportControl → Str
codex_base_url control = loopback_base_url control.port control.capability

-- `BoundTransport::bind`, where `bind` gives the local port for the port that is asked for
unfoldable pub bind_transport : (ℕ → Option ℕ) → TransportSettings → Option TransportControl
bind_transport bind settings = elim (bind settings.bind_port) [
  | none ↦ none
  | some port ↦ some (record {
    port = port;
    capability = settings.capability;
    aging_policy = settings.aging_policy;
    server = record { active_requests = 0; draining = false; requests = [] };
    dropped_observations = 0;
  })
]

pub record ActiveConnection : Type 0 where
  pub snapshot : CodexConfigSnapshot
  pub control : TransportControl

-- `native_codex_with_capability`
native_codex_with_capability : ℕ × CallerCapability → AgingPolicy → TransportSettings
native_codex_with_capability endpoint aging_policy = record {
  bind_port = endpoint.0;
  capability = endpoint.1;
  aging_policy = aging_policy;
}

persisted_settings : AgingPolicy → Checked CodexConfigSnapshot → Connecting TransportSettings
unfolding native_codex_with_capability
persisted_settings aging_policy (err e) = refused (config e)
persisted_settings aging_policy (ok snapshot) =
    elim (from_loopback_base_url snapshot.installed_openai_base_url) [
      | none ↦ refused (invalid_persisted_endpoint snapshot.installed_openai_base_url)
      | some endpoint ↦ ready (native_codex_with_capability endpoint aging_policy)
    ]

connection_of : TransportControl → Checked CodexConfigSnapshot → Connecting ActiveConnection
connection_of control (err e) = refused (config e)
connection_of control (ok snapshot) = ready (record { snapshot = snapshot; control = control })

unfoldable pub is_present : Checked Bool → Bool
is_present (ok present) = present
is_present (err _) = false

module _ (toml : Toml) (to_json : CodexConfigSnapshot → Option Str)
    (from_json : Str → Option CodexConfigSnapshot) where
  -- the settings: those of the snapshot's endpoint if there is one, and new ones else
  settings_where :
      List ℕ → ℕ → AgingPolicy → Bool → Machine → Connecting TransportSettings × Machine
  unfolding persisted_settings native_codex_with_capability
  settings_where random requested_port aging_policy true machine =
      let loaded = load_config_snapshot toml to_json from_json machine in
      (persisted_settings aging_policy loaded.0, loaded.1)
  settings_where random requested_port aging_policy false machine =
      (ready (native_codex_with_capability (requested_port, generate random) aging_policy), machine)

  unfoldable pub transport_settings :
      List ℕ → ℕ → AgingPolicy → Machine → Connecting TransportSettings × Machine
  unfolding settings_where is_present
  transport_settings random requested_port aging_policy machine =
      let present = snapshot_exists machine in
      settings_where random requested_port aging_policy (is_present present.0) present.1

  -- Codex is pointed at a server that is bound already.
  point_at_server : Option TransportControl → Machine → Connecting ActiveConnection × Machine
  unfolding connection_of
  point_at_server none machine = (refused transport, machine)
  point_at_server (some control) machine =
      let result = connect_with_snapshot toml to_json from_json (codex_base_url control) machine in
      (connection_of control result.0, result.1)

  bind_and_point :
      (ℕ → Option ℕ)
      → Connecting TransportSettings
      → Machine
      → Connecting ActiveConnection × Machine
  unfolding point_at_server
  bind_and_point bind (refused e) machine = (refused e, machine)
  bind_and_point bind (ready settings) machine =
      point_at_server (bind_transport bind settings) machine

  unfoldable pub prepare_native_codex_connection_at :
      (ℕ → Option ℕ) → List ℕ → ℕ → AgingPolicy → Machine → Connecting ActiveConnection × Machine
  unfolding bind_and_point
  prepare_native_codex_connection_at bind random requested_port aging_policy machine =
      let settings = transport_settings random requested_port aging_policy machine in
      bind_and_point bind settings.0 settings.1

  disconnected_as : Checked CodexConfigSnapshot → Connecting CodexConfigSnapshot
  disconnected_as (ok snapshot) = ready snapshot
  disconnected_as (err e) = refused (config e)

  unfoldable pub disconnect_native_codex : Machine → Connecting CodexConfigSnapshot × Machine
  unfolding disconnected_as
  disconnect_native_codex machine =
      let result = disconnect_with_snapshot toml to_json from_json machine in
      (disconnected_as result.0, result.1)
