-- ===== src/Codex/Config/RoundTrip.antt =====
-- src/modules/codex_integration/config.rs: connecting and disconnecting as the texts of the
-- configuration file go, and the state that is recognised between and after.
use tokensaver.Prelude.{◌≡◌, refl, ap, ◌∙◌, Str}
use tokensaver.Codex.Toml.{Toml, TomlLaws, seen}
use tokensaver.Codex.Config.{
  OriginalOpenAiBaseUrl, CodexConfigSnapshot, ok, connected, first-ok, openai_base_url_key,
  validate_snapshot, validate_loopback_base_url, original_of, parse_document,
  read_original_openai_base_url, native_realtime_call_base_url, install, connect_config_text,
  disconnect_config_text, connection_state_text, restore, state_of_document,
}
use tokensaver.Codex.Config.Views.{parse_document-print}
use tokensaver.Codex.Config.Restore.{done, snapshot, restore-install, validate-install}

module _ (toml : Toml) where
  open toml use {Document}

  -- What a successful connection has read, and that its result is what the installations make.
  pub record IsConnection (source url : Str) (result : Str × CodexConfigSnapshot) : Type 0 where
    pub before : Document
    pub original : OriginalOpenAiBaseUrl
    pub native_call : Str
    pub is_loopback : validate_loopback_base_url url ≡ ok tt
    pub parsed : parse_document toml source ≡ ok before
    pub found : original_of (seen toml openai_base_url_key before) ≡ ok original
    pub installed : result ≡ install toml before original native_call url

  pub connect_config_text-IsConnection :
      (source url : Str) (result : Str × CodexConfigSnapshot)
      → connect_config_text toml source url ≡ ok result
      → IsConnection source url result
  unfolding connect_config_text read_original_openai_base_url
  connect_config_text-IsConnection source url result h =
      let (_, is_loopback, h1) = first-ok (validate_loopback_base_url url) _ h in
      let (before, parsed, h2) = first-ok (parse_document toml source) _ h1 in
      let (original, found, h3) =
        first-ok (original_of (seen toml openai_base_url_key before)) _ h2 in
      let (native_call, _, h4) = first-ok (native_realtime_call_base_url toml before) _ h3 in
      record {
        before = before;
        original = original;
        native_call = native_call;
        is_loopback = is_loopback;
        parsed = parsed;
        found = found;
        installed = cc;
      }

-- The same is seen under every key of the configurations in two texts.
pub record SameConfig (toml : Toml) (source other : Str) : Type 0 where
  pub left : toml.Document
  pub right : toml.Document
  pub left_parsed : parse_document toml source ≡ ok left
  pub right_parsed : parse_document toml other ≡ ok right
  pub same : (key : Str) → seen toml key right ≡ seen toml key left

module _ (toml : Toml) (laws : TomlLaws toml) where
  install-connected :
      (before : toml.Document) (original : OriginalOpenAiBaseUrl) (native_call url : Str)
      → connection_state_text toml
          (install toml before original native_call url).0
          (install toml before original native_call url).1
        ≡ ok connected
  unfolding connection_state_text validate_snapshot install
  install-connected before original native_call url =
      let (read, parsed, same) =
        parse_document-print toml laws (done toml laws before original native_call url).0 in
      let owned = validate-install toml laws before original native_call url read same in
      rw parsed (rw (owned, state_of_document))

  install-restored :
      (source : Str) (before : toml.Document) (original : OriginalOpenAiBaseUrl)
      (native_call url : Str)
      → parse_document toml source ≡ ok before
      → original_of (seen toml openai_base_url_key before) ≡ ok original
      → (restored : Str) × (disconnect_config_text toml
            (install toml before original native_call url).0
            (install toml before original native_call url).1
          ≡ ok restored)
        × SameConfig toml source restored
  unfolding disconnect_config_text validate_snapshot install
  install-restored source before original native_call url parsed found =
      let (read, reread, same) =
        parse_document-print toml laws (done toml laws before original native_call url).0 in
      let owned = validate-install toml laws before original native_call url read same in
      let after = restore toml (snapshot toml laws before original native_call url) read in
      let (final, final_parsed, final_same) = parse_document-print toml laws after in
      (
        toml.print after,
        rw reread (rw owned refl),
        record {
          left = before;
          right = final;
          left_parsed = parsed;
          right_parsed = final_parsed;
          same = λ key.
              final_same key
              ∙ restore-install toml laws before original native_call url found read same key;
        },
      )

  -- A configuration that was connected is recognised as connected, and disconnecting it succeeds
  -- and leaves a text in which every key reads as it did in the text before.
  pub disconnect-connect :
      (source url next : Str) (taken : CodexConfigSnapshot)
      → connect_config_text toml source url ≡ ok (next, taken)
      → (connection_state_text toml next taken ≡ ok connected)
        × ((restored : Str) × (disconnect_config_text toml next taken ≡ ok restored)
            × SameConfig toml source restored)
  disconnect-connect source url next taken h =
      let c = connect_config_text-IsConnection toml source url (next, taken) h in
      rw (ap (λ r. r.0) c.installed) (
        rw (ap (λ r. r.1) c.installed) (
          install-connected c.before c.original c.native_call url,
          install-restored source c.before c.original c.native_call url c.parsed c.found,
        ))
