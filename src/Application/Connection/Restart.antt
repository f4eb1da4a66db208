-- ===== src/Application/Connection/Restart.antt =====
-- src/application/codex_connection.rs: a first connection, and one after a restart.
use tokensaver.Prelude.{
  ℕ, ◌≤◌, ◌<◌, ◌≡◌, refl, sym, ap, true, Option, none, some, List, [], ◌∷◌, length, All, Str,
  str_eq, str_eq_refl,
}
use tokensaver.Aging.Model.{AgingPolicy}
use tokensaver.Application.Connection.{
  TransportControl, ActiveConnection, ready, codex_base_url, bind_transport, transport_settings,
  prepare_native_codex_connection_at, native_codex_with_capability, persisted_settings,
  connection_of, is_present, settings_where, point_at_server, bind_and_point, disconnected_as,
  disconnect_native_codex,
}
use tokensaver.Application.Connection.Bound.{fresh_server}
use tokensaver.Codex.Toml.{Toml, TomlLaws}
use tokensaver.Codex.Config.{
  CodexConfigSnapshot, ok, validate_snapshot, connect_config_text, validate_loopback_base_url,
  install, disconnect_config_text,
}
use tokensaver.Codex.Config.RoundTrip.{disconnect-connect, connect_config_text-IsConnection}
use tokensaver.Codex.Transaction.{Disk, booted, snapshot_exists}
use tokensaver.Codex.Transaction.Runs.{load_run, connect_run, resume_run, disconnect_run}
use tokensaver.Codex.Transaction.Steps.{text_of_file}
use tokensaver.Transport.Capability.{
  loopback_base_url, generate, from_loopback_base_url, u16_max, capability_bytes,
}
use tokensaver.Transport.Capability.Laws.{loopback_base_url-generate}

abbrev pub control_at : ℕ → Str → AgingPolicy → TransportControl
control_at port capability policy = record {
  port = port;
  capability = capability;
  aging_policy = policy;
  server = fresh_server;
  dropped_observations = 0;
}

-- what a snapshot is that a connection has taken
pub taken-url :
    (toml : Toml) (source url next : Str) (taken : CodexConfigSnapshot)
    → connect_config_text toml source url ≡ ok (next, taken)
    → (taken.installed_openai_base_url ≡ url)
      × (validate_snapshot taken ≡ ok tt)
      × (validate_loopback_base_url url ≡ ok tt)
unfolding install validate_snapshot
taken-url toml source url next taken made =
    let c = connect_config_text-IsConnection toml source url (next, taken) made in
    (
      ap (λ r. r.1.installed_openai_base_url) c.installed,
      ap (λ r. validate_snapshot r.1) c.installed,
      c.is_loopback,
    )

module _ (toml : Toml) (to_json : CodexConfigSnapshot → Option Str)
    (from_json : Str → Option CodexConfigSnapshot) where
  pub prepare_run :
      (bind : ℕ → Option ℕ) (random : List ℕ) (port : ℕ) (policy : AgingPolicy)
      (before : Option Str) (taken : CodexConfigSnapshot) (next text : Str)
      → bind 0 ≡ some port
      → connect_config_text toml (text_of_file before) (loopback_base_url port (generate random))
        ≡ ok (next, taken)
      → to_json taken ≡ some text
      → prepare_native_codex_connection_at toml to_json from_json bind random 0 policy
          (booted (record { config = before; snapshot = none }))
        ≡ (
          ready (record { snapshot = taken; control = control_at port (generate random) policy }),
          record {
            disk = record { config = some next; snapshot = some text };
            answers = [];
            past =
                record { config = some next; snapshot = some text }
                ∷ record { config = before; snapshot = some text }
                ∷ [];
          },
        )
  unfolding prepare_native_codex_connection_at transport_settings settings_where
      native_codex_with_capability bind_and_point point_at_server connection_of codex_base_url
      snapshot_exists is_present bind_transport generate
  prepare_run bind random port policy before taken next text bound made written =
      let url = loopback_base_url port (generate random) in
      let (_, valid, address) = taken-url toml (text_of_file before) url next taken made in
      rw (bound, bind_transport)
        (rw
          (connect_run toml to_json from_json url before taken next text address made valid written)
          refl)

  -- Where TokenSaver has stopped while Codex was connected, a new start asks for the same port,
  -- and where it gets that port Codex finds it at the address that is in its configuration; the
  -- files of Codex stay as they are. The snapshot's codec reads back what it has written.
  pub prepare-restart :
      (laws : TomlLaws toml) (bind : ℕ → Option ℕ) (random bytes : List ℕ) (port requested : ℕ)
      (policy : AgingPolicy) (source next text : Str) (taken : CodexConfigSnapshot)
      → 0 < port
      → port ≤ u16_max
      → length bytes ≡ capability_bytes
      → All (λ b. b < 256) bytes
      → connect_config_text toml source (loopback_base_url port (generate bytes)) ≡ ok (next, taken)
      → from_json text ≡ some taken
      → bind port ≡ some port
      → (active : ActiveConnection) × (prepare_native_codex_connection_at toml to_json from_json
            bind random requested policy
            (booted (record { config = some next; snapshot = some text }))
          ≡ (ready active, booted (record { config = some next; snapshot = some text })))
        × (codex_base_url active.control ≡ taken.installed_openai_base_url)
  unfolding prepare_native_codex_connection_at transport_settings settings_where persisted_settings
      native_codex_with_capability bind_and_point point_at_server connection_of codex_base_url
      snapshot_exists is_present bind_transport
  prepare-restart laws bind random bytes port requested policy source next text taken positive fits
        count small made read bound =
      let url = loopback_base_url port (generate bytes) in
      let (url_is, valid, address) = taken-url toml source url next taken made in
      let (port_is, _) = loopback_base_url-generate port bytes positive fits count small in
      let found : from_loopback_base_url taken.installed_openai_base_url
          ≡ some (port, generate bytes) =
        rw url_is port_is in
      let (state, _) = disconnect-connect toml laws source url next taken made in
      let same : str_eq taken.installed_openai_base_url url ≡ true = rw url_is (str_eq_refl url) in
      (
        record { snapshot = taken; control = control_at port (generate bytes) policy },
        rw (load_run toml to_json from_json (some next) taken text read valid) (
            rw (found, persisted_settings)
              (rw (bound, bind_transport)
                (rw
                  (resume_run toml to_json from_json url taken next text address read valid state
                    same)
                  refl))),
        sym url_is,
      )

  pub disconnect_native_run :
      (taken : CodexConfigSnapshot) (restored text next : Str) (past : List Disk)
      → from_json text ≡ some taken
      → validate_snapshot taken ≡ ok tt
      → disconnect_config_text toml next taken ≡ ok restored
      → disconnect_native_codex toml to_json from_json (record {
        disk = record { config = some next; snapshot = some text };
        answers = [];
        past = past;
      })
        ≡ (
          ready taken,
          record {
            disk = record { config = some restored; snapshot = none };
            answers = [];
            past =
                record { config = some restored; snapshot = none }
                ∷ record { config = some restored; snapshot = some text }
                ∷ past;
          },
        )
  unfolding disconnect_native_codex disconnected_as
  disconnect_native_run taken restored text next past read valid taken_out =
      rw (disconnect_run toml to_json from_json taken restored text next past read valid taken_out)
        refl
