-- ===== src/Application/Connection/Bound.antt =====
-- src/application/codex_connection.rs: the server of a new connection is idle, and has the policy
-- that it was prepared with.
use tokensaver.Prelude.{
  ℕ, ◌≡◌, refl, inl, inr, Bool, true, false, Option, List, [], Option-cases, Str,
}
use tokensaver.Aging.Model.{AgingPolicy}
use tokensaver.Application.Connection.{
  ready, refused, Connecting, TransportSettings, TransportControl, bind_transport, ActiveConnection,
  native_codex_with_capability, persisted_settings, connection_of, is_present, settings_where,
  transport_settings, point_at_server, bind_and_point, prepare_native_codex_connection_at,
}
use tokensaver.Codex.Toml.{Toml}
use tokensaver.Codex.Config.{CodexConfigSnapshot, Checked, ok, err}
use tokensaver.Codex.Transaction.{Machine, load_config_snapshot, snapshot_exists}
use tokensaver.Transport.Admission.{Server}
use tokensaver.Transport.Capability.{from_loopback_base_url}

abbrev pub fresh_server : Server
fresh_server = record { active_requests = 0; draining = false; requests = [] }

abbrev pub IsFresh : AgingPolicy → TransportControl → Type 0
IsFresh policy control = (control.server ≡ fresh_server) × (control.aging_policy ≡ policy)

-- of settings that there are, and of a connection that there is
abbrev HasPolicy : AgingPolicy → Connecting TransportSettings → Type 0
HasPolicy policy (refused _) = Unit
HasPolicy policy (ready settings) = settings.aging_policy ≡ policy

abbrev pub IsPrepared : AgingPolicy → Connecting ActiveConnection → Type 0
IsPrepared policy (refused _) = Unit
IsPrepared policy (ready active) = IsFresh policy active.control

persisted_settings-HasPolicy :
    (policy : AgingPolicy) (loaded : Checked CodexConfigSnapshot)
    → HasPolicy policy (persisted_settings policy loaded)
unfolding persisted_settings native_codex_with_capability
persisted_settings-HasPolicy policy (err e) = tt
persisted_settings-HasPolicy policy (ok snapshot) =
    elim (Option-cases (from_loopback_base_url snapshot.installed_openai_base_url)) [
      | inl missing ↦ rw (missing, persisted_settings) tt
      | inr (endpoint, found) ↦ rw (found, persisted_settings) refl
    ]

connection_of-IsPrepared :
    (policy : AgingPolicy) (control : TransportControl) (result : Checked CodexConfigSnapshot)
    → IsFresh policy control
    → IsPrepared policy (connection_of control result)
unfolding connection_of
connection_of-IsPrepared policy control (err e) h = tt
connection_of-IsPrepared policy control (ok snapshot) h = h

module _ (toml : Toml) (to_json : CodexConfigSnapshot → Option Str)
    (from_json : Str → Option CodexConfigSnapshot) where
  settings_where-HasPolicy :
      (random : List ℕ) (port : ℕ) (policy : AgingPolicy) (present : Bool) (machine : Machine)
      → HasPolicy policy
          (settings_where toml to_json from_json random port policy present machine).0
  unfolding settings_where native_codex_with_capability
  settings_where-HasPolicy random port policy true machine =
      persisted_settings-HasPolicy policy (load_config_snapshot toml to_json from_json machine).0
  settings_where-HasPolicy random port policy false machine = refl

  bind_and_point-IsPrepared :
      (bind : ℕ → Option ℕ) (policy : AgingPolicy) (settings : Connecting TransportSettings)
      (machine : Machine)
      → HasPolicy policy settings
      → IsPrepared policy (bind_and_point toml to_json from_json bind settings machine).0
  unfolding bind_and_point point_at_server bind_transport
  bind_and_point-IsPrepared bind policy (refused e) machine h = tt
  bind_and_point-IsPrepared bind policy (ready settings) machine h =
      elim (Option-cases (bind settings.bind_port)) [
        | inl unbound ↦ rw (unbound, bind_transport) tt
        | inr (port, bound) ↦
            rw (bound, bind_transport) (connection_of-IsPrepared policy _ _ (refl, h))
      ]

  pub prepare-IsPrepared :
      (bind : ℕ → Option ℕ) (random : List ℕ) (port : ℕ) (policy : AgingPolicy) (machine : Machine)
      → IsPrepared policy
          (prepare_native_codex_connection_at toml to_json from_json bind random port policy
            machine).0
  unfolding prepare_native_codex_connection_at transport_settings
  prepare-IsPrepared bind random port policy machine =
      let present = snapshot_exists machine in
      bind_and_point-IsPrepared bind policy _ _
        (settings_where-HasPolicy random port policy (is_present present.0) present.1)
