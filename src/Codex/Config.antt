-- ===== src/Codex/Config.antt =====
-- src/modules/codex_integration/config.rs: the text of the Codex configuration, with TokenSaver's
-- address put in and taken out again. The texts of errors from toml_edit are left out.
pub mod Views
pub mod Restore
pub mod RoundTrip
use tokensaver.Prelude.{
  ℕ, ◌≡◌, refl, Bool, true, false, not, ◌&&◌, ◌||◌, Option, none, some, List, [], ◌∷◌, ◌++◌, ◌==◌,
  if◌then◌else◌, all, any, contains, Str, codes, len, as_bytes, str_eq, strip_prefix, split_once,
  is_whitespace, trim, split, is_some, is_ascii_hexdigit, parse_unsigned, ends_with,
  trim_end_matches,
}
use tokensaver.Codex.Toml.{Toml, Seen, nothing, not_text, text, seen}

abbrev pub openai_base_url_key : Str
openai_base_url_key = codes "openai_base_url"

abbrev pub chatgpt_base_url_key : Str
chatgpt_base_url_key = codes "chatgpt_base_url"

abbrev pub realtime_call_base_url_key : Str
realtime_call_base_url_key = codes "experimental_realtime_webrtc_call_base_url"

abbrev pub realtime_ws_base_url_key : Str
realtime_ws_base_url_key = codes "experimental_realtime_ws_base_url"

abbrev pub default_chatgpt_base_url : Str
default_chatgpt_base_url = codes "https://chatgpt.com/backend-api"

abbrev pub default_realtime_ws_base_url : Str
default_realtime_ws_base_url = codes "https://api.openai.com/v1"

abbrev pub snapshot_schema_version : ℕ
snapshot_schema_version = 2

abbrev pub capability_hex_length : ℕ
capability_hex_length = 64

abbrev u16_max : ℕ
u16_max = 65535

pub data OriginalOpenAiBaseUrl : Type 0 where
  absent : OriginalOpenAiBaseUrl
  original_value : Str → OriginalOpenAiBaseUrl

pub record CodexConfigSnapshot : Type 0 where
  pub schema_version : ℕ
  pub original_openai_base_url : OriginalOpenAiBaseUrl
  pub installed_openai_base_url : Str
  pub installed_realtime_call_base_url : Option Str
  pub installed_realtime_ws_base_url : Option Str

pub data CodexConnectionState : Type 0 where
  connected not_connected drifted : CodexConnectionState

pub data CodexConfigError : Type 0 where
  invalid_toml unsupported_openai_base_url_type : CodexConfigError
  unsupported_chatgpt_base_url_type snapshot_format : CodexConfigError
  unsafe_loopback_url : Str → CodexConfigError
  unsupported_snapshot_version : ℕ → CodexConfigError
  active_snapshot_different_endpoint : Str → Str → CodexConfigError
  snapshot_drift io : CodexConfigError
  drift : Str → Option Str → Option Str → CodexConfigError

pub data Checked (A : Type 0) : Type 0 where
  err : CodexConfigError → Checked A
  ok : A → Checked A

abbrev pub unless : Bool → CodexConfigError → Checked (Unit {0})
unless false reason = err reason
unless true reason = ok tt

-- the operator `?`
infixl 5 ◌>>=◌
abbrev pub ◌>>=◌ : {A B : Type 0} → Checked A → (A → Checked B) → Checked B
err reason >>= next = err reason
ok value >>= next = next value

infixl 5 ◌>>◌
abbrev pub ◌>>◌ : {B : Type 0} → Checked (Unit {0}) → Checked B → Checked B
first >> second = first >>= (λ _. second)

-- Where a step and what follows it succeed, the step has succeeded.
pub first-ok :
    {A B : Type 0} {result : B} (first : Checked A) (next : A → Checked B)
    → (first >>= next) ≡ ok result
    → (value : A) × (first ≡ ok value) × (next value ≡ ok result)
first-ok (err reason) next succeeds = cc
first-ok (ok value) next succeeds = (value, refl, succeeds)

unfoldable pub validate_snapshot : CodexConfigSnapshot → Checked (Unit {0})
validate_snapshot snapshot =
    unless (snapshot.schema_version == snapshot_schema_version)
      (unsupported_snapshot_version snapshot.schema_version)

-- the path behind the port: a capability, `v1` and nothing more
unfoldable pub is_managed_path : List Str → Bool
is_managed_path (secret ∷ api_prefix ∷ []) =
    (len secret == capability_hex_length)
    && all is_ascii_hexdigit (as_bytes secret)
    && str_eq api_prefix (codes "v1")
is_managed_path _ = false

unfoldable pub is_managed_address : Option (Str × Str) → Bool
unfolding is_managed_path
is_managed_address none = false
is_managed_address (some (port, path)) = elim (parse_unsigned u16_max port) [
  | none ↦ false
  | some number ↦ not (number == 0) && is_managed_path (split b'/' path)
]

-- what `validate_loopback_base_url` accepts
unfoldable pub is_loopback_base_url : Str → Bool
unfolding is_managed_address
is_loopback_base_url url = elim (strip_prefix (codes "http://127.0.0.1:") url) [
  | none ↦ false
  | some rest ↦
      not (contains url b'?' || contains url b'#' || any is_whitespace url)
      && is_managed_address (split_once b'/' rest)
]

unfoldable pub validate_loopback_base_url : Str → Checked (Unit {0})
validate_loopback_base_url url = unless (is_loopback_base_url url) (unsafe_loopback_url url)

-- `==` of `Option<String>`
unfoldable pub same_option : Option Str → Option Str → Bool
same_option none none = true
same_option (some a) (some b) = str_eq a b
same_option _ _ = false

pub text_of : Seen → Option Str
text_of (text value) = some value
text_of _ = none

unfoldable pub original_of : Seen → Checked OriginalOpenAiBaseUrl
original_of nothing = ok absent
original_of (text url) = ok (original_value url)
original_of not_text = err unsupported_openai_base_url_type

unfoldable pub optional_of : Str → Seen → Checked (Option Str)
optional_of key nothing = ok none
optional_of key (text url) = ok (some url)
optional_of key not_text =
    if str_eq key chatgpt_base_url_key
    then err unsupported_chatgpt_base_url_type
    else err (drift key none none)

-- `.ok().flatten().is_none()` of what `read_optional_string` returns
pub reads_none : Checked (Option Str) → Bool
reads_none (ok (some _)) = false
reads_none _ = true

unfoldable pub native_call_url : Str → Str
native_call_url base =
    let trimmed = trim_end_matches b'/' base in
    if ends_with (codes "/codex") trimmed then trimmed else trimmed ++ codes "/codex"

module _ (toml : Toml) where
  open toml use {Document, blank, parse, print, get, insert, remove}

  unfoldable pub parse_document : Str → Checked Document
  parse_document source =
      if str_eq (trim source) []
      then ok blank
      else elim (parse source) [ none ↦ err invalid_toml | some document ↦ ok document ]

  unfoldable pub read_original_openai_base_url : Document → Checked OriginalOpenAiBaseUrl
  unfolding original_of
  read_original_openai_base_url document = original_of (seen toml openai_base_url_key document)

  unfoldable pub read_optional_string : Document → Str → Checked (Option Str)
  unfolding optional_of
  read_optional_string document key = optional_of key (seen toml key document)

  unfoldable pub native_realtime_call_base_url : Document → Checked Str
  unfolding native_call_url
  native_realtime_call_base_url document = do
    base ← read_optional_string document chatgpt_base_url_key
    ok (native_call_url (elim base [ none ↦ default_chatgpt_base_url | some url ↦ url ]))

  -- the document that `install_if_absent` leaves, and what it returns
  unfoldable pub install_if_absent : Document → Str → Str → Document × Option Str
  install_if_absent document key installed =
      if is_some (get key document)
      then (document, none)
      else (insert key installed document, some installed)

  unfoldable pub validate_key : Document → Str → Option Str → Checked (Unit {0})
  unfolding text_of
  validate_key document key expected =
      let actual = text_of (seen toml key document) in
      unless (same_option actual expected) (drift key expected actual)

  pub validate_installed : Document → Str → Option Str → Checked (Unit {0})
  validate_installed document key none = ok tt
  validate_installed document key (some expected) = validate_key document key (some expected)

  -- `validate_owned_values` where the installed values are expected, as every call has it
  unfoldable pub validate_owned_values : Document → CodexConfigSnapshot → Checked (Unit {0})
  unfolding validate_installed
  validate_owned_values document snapshot = do
    validate_key document openai_base_url_key (some snapshot.installed_openai_base_url)
    validate_installed document realtime_call_base_url_key snapshot.installed_realtime_call_base_url
    validate_installed document realtime_ws_base_url_key snapshot.installed_realtime_ws_base_url

  -- the installations of `connect_config_text`, and the snapshot that remembers them
  unfoldable pub install : Document → OriginalOpenAiBaseUrl → Str → Str → Str × CodexConfigSnapshot
  install document original native_call loopback_base_url =
      let pointed = insert openai_base_url_key loopback_base_url document in
      let called = install_if_absent pointed realtime_call_base_url_key native_call in
      let done = install_if_absent called.0 realtime_ws_base_url_key default_realtime_ws_base_url in
      (
        print done.0,
        record {
          schema_version = snapshot_schema_version;
          original_openai_base_url = original;
          installed_openai_base_url = loopback_base_url;
          installed_realtime_call_base_url = called.1;
          installed_realtime_ws_base_url = done.1;
        },
      )

  unfoldable pub connect_config_text : Str → Str → Checked (Str × CodexConfigSnapshot)
  unfolding install
  connect_config_text source loopback_base_url = do
    validate_loopback_base_url loopback_base_url
    document ← parse_document source
    original ← read_original_openai_base_url document
    native_call ← native_realtime_call_base_url document
    ok (install document original native_call loopback_base_url)

  pub restore_openai : OriginalOpenAiBaseUrl → Document → Document
  restore_openai absent document = remove openai_base_url_key document
  restore_openai (original_value original) document = insert openai_base_url_key original document

  pub remove_if_installed : Str → Option Str → Document → Document
  remove_if_installed key none document = document
  remove_if_installed key (some _) document = remove key document

  pub restore : CodexConfigSnapshot → Document → Document
  unfolding restore_openai remove_if_installed
  restore snapshot document =
      remove_if_installed realtime_ws_base_url_key snapshot.installed_realtime_ws_base_url (
        remove_if_installed realtime_call_base_url_key snapshot.installed_realtime_call_base_url
          (restore_openai snapshot.original_openai_base_url document))

  unfoldable pub disconnect_config_text : Str → CodexConfigSnapshot → Checked Str
  unfolding restore
  disconnect_config_text source snapshot = do
    validate_snapshot snapshot
    document ← parse_document source
    validate_owned_values document snapshot
    ok (print (restore snapshot document))

  pub original_matches : OriginalOpenAiBaseUrl → Option Str → Bool
  original_matches absent actual = not (is_some actual)
  original_matches (original_value original) actual = same_option actual (some original)

  pub realtime_absent : Document → Str → Option Str → Bool
  unfolding reads_none
  realtime_absent document key none = true
  realtime_absent document key (some _) = reads_none (read_optional_string document key)

  -- where the installed values are not all in place
  pub restored_or_drifted : Document → CodexConfigSnapshot → Checked CodexConnectionState
  unfolding original_matches realtime_absent
  restored_or_drifted document snapshot = do
    actual ← read_optional_string document openai_base_url_key
    ok (
        if original_matches snapshot.original_openai_base_url actual
          && realtime_absent document realtime_call_base_url_key
              snapshot.installed_realtime_call_base_url
          && realtime_absent document realtime_ws_base_url_key
              snapshot.installed_realtime_ws_base_url
        then not_connected
        else drifted)

  pub state_of_document : Document → CodexConfigSnapshot → Checked CodexConnectionState
  unfolding restored_or_drifted
  state_of_document document snapshot = elim (validate_owned_values document snapshot) [
    | ok _ ↦ ok connected
    | err _ ↦ restored_or_drifted document snapshot
  ]

  unfoldable pub connection_state_text : Str → CodexConfigSnapshot → Checked CodexConnectionState
  unfolding state_of_document
  connection_state_text source snapshot = do
    validate_snapshot snapshot
    document ← parse_document source
    state_of_document document snapshot
