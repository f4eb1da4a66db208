-- ===== src/Tests/Codex.antt =====
-- Runs of src/modules/codex_integration/config.rs, of src/modules/transport/capability.rs and of
-- src/shared/security.rs: a configuration that is connected and disconnected.
use tokensaver.Prelude.{
  ℕ, ◌≡◌, refl, ◌↔◌, true, false, none, some, [], ◌∷◌, ◌++◌, arith, Str, codes,
}
use tokensaver.Codex.Config.{
  ok, connected, disconnect_config_text, connection_state_text, validate_loopback_base_url,
}
use tokensaver.Codex.Config.RoundTrip.{SameConfig, disconnect-connect}
use tokensaver.Codex.Transaction.{Disk, connect_with_snapshot}
use tokensaver.Codex.Transaction.Crash.{AllSafe, connect_with_snapshot-AllSafe}
use tokensaver.Transport.Capability.{
  authenticate_path, loopback_base_url, from_loopback_base_url, generate,
}
use tokensaver.Transport.Capability.Laws.{
  Authenticated, authenticate_path_iff, loopback_base_url-generate,
}
use tokensaver.Tests.Entries.{entries_toml, entries_laws, print_entries}
use tokensaver.Security.{redact_local_secrets}
use tokensaver.Security.Laws.{Redacts}
use tokensaver.Security.Hidden.{IsHidden, redact_local_secrets-IsHidden}
use tokensaver.Tests.Fixtures.{
  random, url, before, during, taken, connected_text, to_json, from_json, reads_back, small,
}

-- 64 digits
abbrev secret : Str
secret = codes "0123456789abcdef0123456789abcdef0123456789abcdef0123456789abcdef"

disconnect-connect_example :
    (connection_state_text entries_toml (print_entries during) taken ≡ ok connected)
    × ((restored : Str) × (disconnect_config_text entries_toml (print_entries during) taken
          ≡ ok restored)
        × SameConfig entries_toml (print_entries before) restored)
disconnect-connect_example =
    disconnect-connect entries_toml entries_laws (print_entries before) url (print_entries during)
      taken connected_text

abbrev disk_before : Disk
disk_before = record { config = some (print_entries before); snapshot = none }

connect_with_snapshot-AllSafe_example :
    AllSafe entries_toml to_json from_json
      (some (print_entries before))
      (connect_with_snapshot entries_toml to_json from_json url
        (record { disk = disk_before; answers = true ∷ true ∷ true ∷ false ∷ []; past = [] })).1
connect_with_snapshot-AllSafe_example =
    connect_with_snapshot-AllSafe entries_toml to_json from_json entries_laws reads_back url
      disk_before (true ∷ true ∷ true ∷ false ∷ [])

authenticate_path_iff_example :
    (authenticate_path secret (b'/' ∷ secret ++ b'/' ∷ codes "v1/responses")
      ≡ some (codes "/v1/responses"))
    ↔ Authenticated secret (b'/' ∷ secret ++ b'/' ∷ codes "v1/responses") (codes "/v1/responses")
authenticate_path_iff_example =
    authenticate_path_iff secret (b'/' ∷ secret ++ b'/' ∷ codes "v1/responses")
      (codes "/v1/responses") refl refl

loopback_base_url-generate_example :
    (from_loopback_base_url (loopback_base_url 43117 (generate random))
      ≡ some (43117, generate random))
    × (validate_loopback_base_url (loopback_base_url 43117 (generate random)) ≡ ok tt)
loopback_base_url-generate_example =
    loopback_base_url-generate 43117 random (omega arith) (omega arith) refl (small 32)

redact_local_secrets-IsHidden_example :
    (places : ℕ) × (output : Str) × (redact_local_secrets
        (codes "endpoint http://127.0.0.1:43117/0123abcd/v1 failed")
      ≡ some output)
    × Redacts places (codes "endpoint http://127.0.0.1:43117/0123abcd/v1 failed") output
    × IsHidden output
redact_local_secrets-IsHidden_example =
    redact_local_secrets-IsHidden (codes "endpoint http://127.0.0.1:43117/0123abcd/v1 failed")
