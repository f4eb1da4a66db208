-- ===== src/Codex/Transaction/Runs.antt =====
-- src/modules/codex_integration/config.rs: the operations where no access of a file fails.
use tokensaver.Prelude.{◌≡◌, refl, true, Option, none, some, List, [], ◌∷◌, Str, str_eq}
use tokensaver.Codex.Toml.{Toml}
use tokensaver.Codex.Config.{
  CodexConfigSnapshot, ok, connected, validate_snapshot, connect_config_text,
  disconnect_config_text, validate_loopback_base_url, connection_state_text,
}
use tokensaver.Codex.Transaction.{
  Disk, ◌>>=◌, booted, parse_snapshot, load_config_snapshot, serialized, save_config_snapshot,
  point_codex, connect_fresh, disconnect_config_file, disconnect_with_snapshot, connect_where,
  connect_with_snapshot, state_of_file, connection_state_file, resume, connect_existing,
}
use tokensaver.Codex.Transaction.Steps.{text_of_file}

module _ (toml : Toml) (to_json : CodexConfigSnapshot → Option Str)
    (from_json : Str → Option CodexConfigSnapshot) where
  -- a configuration that was not connected
  pub connect_run :
      (url : Str) (before : Option Str) (taken : CodexConfigSnapshot) (next text : Str)
      → validate_loopback_base_url url ≡ ok tt
      → connect_config_text toml (text_of_file before) url ≡ ok (next, taken)
      → validate_snapshot taken ≡ ok tt
      → to_json taken ≡ some text
      → connect_with_snapshot toml to_json from_json url
          (booted (record { config = before; snapshot = none }))
        ≡ (
          ok taken,
          record {
            disk = record { config = some next; snapshot = some text };
            answers = [];
            past =
                record { config = some next; snapshot = some text }
                ∷ record { config = before; snapshot = some text }
                ∷ [];
          },
        )
  unfolding connect_with_snapshot connect_where connect_fresh save_config_snapshot serialized
      point_codex ◌>>=◌
  connect_run url none taken next text address made valid written =
      rw address (rw made (rw valid (rw (written, serialized) refl)))
  connect_run url (some source) taken next text address made valid written =
      rw address (rw made (rw valid (rw (written, serialized) refl)))

  -- a connected configuration
  pub disconnect_run :
      (taken : CodexConfigSnapshot) (restored text next : Str) (past : List Disk)
      → from_json text ≡ some taken
      → validate_snapshot taken ≡ ok tt
      → disconnect_config_text toml next taken ≡ ok restored
      → disconnect_with_snapshot toml to_json from_json (record {
        disk = record { config = some next; snapshot = some text };
        answers = [];
        past = past;
      })
        ≡ (
          ok taken,
          record {
            disk = record { config = some restored; snapshot = none };
            answers = [];
            past =
                record { config = some restored; snapshot = none }
                ∷ record { config = some restored; snapshot = some text }
                ∷ past;
          },
        )
  unfolding disconnect_with_snapshot load_config_snapshot disconnect_config_file ◌>>=◌
  disconnect_run taken restored text next past read valid taken_out =
      rw (read, parse_snapshot) (rw valid (rw valid (rw taken_out refl)))

  -- a connection to the address that is in place
  pub resume_run :
      (url : Str) (taken : CodexConfigSnapshot) (next text : Str)
      → validate_loopback_base_url url ≡ ok tt
      → from_json text ≡ some taken
      → validate_snapshot taken ≡ ok tt
      → connection_state_text toml next taken ≡ ok connected
      → str_eq taken.installed_openai_base_url url ≡ true
      → connect_with_snapshot toml to_json from_json url
          (booted (record { config = some next; snapshot = some text }))
        ≡ (ok taken, booted (record { config = some next; snapshot = some text }))
  unfolding connect_with_snapshot connect_where connect_existing load_config_snapshot
      connection_state_file state_of_file resume ◌>>=◌
  resume_run url taken next text address read valid state same =
      rw address (rw (read, parse_snapshot) (rw valid (rw valid (rw state (rw same refl)))))

  pub load_run :
      (config : Option Str) (taken : CodexConfigSnapshot) (text : Str)
      → from_json text ≡ some taken
      → validate_snapshot taken ≡ ok tt
      → load_config_snapshot toml to_json from_json
          (booted (record { config = config; snapshot = some text }))
        ≡ (ok taken, booted (record { config = config; snapshot = some text }))
  unfolding load_config_snapshot ◌>>=◌
  load_run config taken text read valid = rw (read, parse_snapshot) (rw valid refl)
