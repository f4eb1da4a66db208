-- ===== src/Tests/Fixtures.antt =====
-- A configuration of Codex before and while it is connected, and a codec of the snapshot.
use tokensaver.Prelude.{
  ℕ, zero, suc, ◌<◌, ◌≡◌, refl, Option, none, some, List, [], ◌∷◌, arith, replicate, All, contains,
  Str, codes, len_utf8, len, utf8_bytes, as_bytes, str_eq, strip_prefix, split_once, is_whitespace,
  trim, split, decimal, parse_digits, parse_unsigned, starts_with, ends_with, trim_end_matches,
}
use tokensaver.Codex.Toml.{seen}
use tokensaver.Codex.Config.{
  CodexConfigSnapshot, OriginalOpenAiBaseUrl, original_value, absent, ok, connect_config_text,
  openai_base_url_key, realtime_ws_base_url_key, realtime_call_base_url_key,
  default_realtime_ws_base_url, validate_loopback_base_url, is_loopback_base_url,
  is_managed_address, is_managed_path, parse_document, read_original_openai_base_url,
  read_optional_string, native_realtime_call_base_url, install_if_absent, install, original_of,
  optional_of, native_call_url,
}
use tokensaver.Transport.Capability.{hex_encode, hex_digit, loopback_base_url, generate}
use tokensaver.Tests.Entries.{
  parse_entries-print, Entries, entries_toml, print_entries, parse_entries, lookup, erase,
}

abbrev pub random : List ℕ
random = replicate 32 171

abbrev pub url : Str
url = loopback_base_url 43117 (generate random)

abbrev pub before : Entries
before = (openai_base_url_key, codes "https://example.com") ∷ []

abbrev pub during : Entries
during =
    (realtime_ws_base_url_key, default_realtime_ws_base_url)
    ∷ (realtime_call_base_url_key, codes "https://chatgpt.com/backend-api/codex")
    ∷ (openai_base_url_key, url)
    ∷ []

abbrev pub taken : CodexConfigSnapshot
taken = record {
  schema_version = 2;
  original_openai_base_url = original_value (codes "https://example.com");
  installed_openai_base_url = url;
  installed_realtime_call_base_url = some (codes "https://chatgpt.com/backend-api/codex");
  installed_realtime_ws_base_url = some default_realtime_ws_base_url;
}

pub connected_text :
    connect_config_text entries_toml (print_entries before) url ≡ ok (print_entries during, taken)
unfolding connect_config_text print_entries validate_loopback_base_url is_loopback_base_url
    is_managed_address is_managed_path parse_document parse_entries read_original_openai_base_url
    read_optional_string native_realtime_call_base_url install_if_absent install original_of
    optional_of native_call_url seen lookup erase str_eq split_once split trim strip_prefix
    parse_unsigned parse_digits as_bytes utf8_bytes len len_utf8 contains is_whitespace
    trim_end_matches ends_with starts_with loopback_base_url generate hex_encode hex_digit decimal
connected_text = refl

tagged : Option Str → Str × Str
tagged none = ([], [])
tagged (some value) = (codes "x", value)

untagged : Str × Str → Option Str
untagged ([], _) = none
untagged (_ ∷ _, value) = some value

original_text : OriginalOpenAiBaseUrl → Option Str
original_text absent = none
original_text (original_value value) = some value

text_original : Option Str → OriginalOpenAiBaseUrl
text_original none = absent
text_original (some value) = original_value value

unfoldable pub fields : CodexConfigSnapshot → Entries
unfolding tagged original_text
fields snapshot =
    ([], snapshot.schema_version ∷ [])
    ∷ tagged (original_text snapshot.original_openai_base_url)
    ∷ ([], snapshot.installed_openai_base_url)
    ∷ tagged snapshot.installed_realtime_call_base_url
    ∷ tagged snapshot.installed_realtime_ws_base_url
    ∷ []

of_fields : Option Entries → Option CodexConfigSnapshot
unfolding untagged text_original
of_fields (some ((_, version ∷ []) ∷ original ∷ (_, installed) ∷ call ∷ ws ∷ [])) = some (record {
  schema_version = version;
  original_openai_base_url = text_original (untagged original);
  installed_openai_base_url = installed;
  installed_realtime_call_base_url = untagged call;
  installed_realtime_ws_base_url = untagged ws;
})
of_fields _ = none

unfoldable pub to_json : CodexConfigSnapshot → Option Str
unfolding fields
to_json snapshot = some (print_entries (fields snapshot))

unfoldable pub from_json : Str → Option CodexConfigSnapshot
unfolding of_fields
from_json source = of_fields (parse_entries source)

untagged-tagged : (value : Option Str) → untagged (tagged value) ≡ value
unfolding untagged tagged
untagged-tagged none = refl
untagged-tagged (some value) = refl

text_original-original_text :
    (original : OriginalOpenAiBaseUrl) → text_original (original_text original) ≡ original
unfolding text_original original_text
text_original-original_text absent = refl
text_original-original_text (original_value value) = refl

of_fields-fields :
    (snapshot : CodexConfigSnapshot) → of_fields (some (fields snapshot)) ≡ some snapshot
unfolding of_fields fields
of_fields-fields snapshot = rw (untagged-tagged (original_text snapshot.original_openai_base_url)) (
    rw (text_original-original_text snapshot.original_openai_base_url) (
      rw (untagged-tagged snapshot.installed_realtime_call_base_url)
        (rw (untagged-tagged snapshot.installed_realtime_ws_base_url) refl)))

pub reads_back :
    (snapshot : CodexConfigSnapshot) (text : Str)
    → to_json snapshot ≡ some text
    → from_json text ≡ some snapshot
unfolding to_json from_json
reads_back snapshot text h =
    let printed : print_entries (fields snapshot) ≡ text = cc in
    rw (← printed) (rw (parse_entries-print (fields snapshot)) (of_fields-fields snapshot))

pub small : (n : ℕ) → All (λ b. b < 256) (replicate n 171)
small zero = tt
small (suc n) = (omega arith, small n)
