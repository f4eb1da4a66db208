-- ===== src/Transport/Capability/Laws.antt =====
-- src/modules/transport/capability.rs: which paths are authenticated, and the URL of a capability
-- read back, also by the Codex configuration.
use tokensaver.Prelude.{
  ℕ, ◌*◌, ◌/◌, ◌≤◌, ◌<◌, ◌≡◌, refl, ap, ◌∙◌, ◌↔◌, inl, inr, Bool, true, false, not, ◌&&◌, ◌||◌,
  Option, none, some, List, [], ◌∷◌, ◌++◌, arith, ltb, leb, ◌==◌, Bool-cases, length, All, all,
  all-append, all_mono, any-false, contains-false, Str, codes, len, as_bytes, str_eq, strip_prefix,
  split_once, is_whitespace, ascii_lower, to_ascii_lowercase, split, decimal, is_ascii_digit,
  is_ascii_hexdigit, get_from, lacks, get_from-append, split_once-append, split_once-some,
  split-append, parse_unsigned-decimal, all_digits-decimal, lacks-decimal,
}
use tokensaver.Transport.Capability.{
  authenticate_path, authenticate_parts, capability_bytes, CallerCapability, is_api_path,
  api_prefix, u16_max, generate, hex_encode, loopback_base_url, from_loopback_base_url,
  constant_time_equal, owned_path, with_port, owned_address, capability_hex_length,
}
use tokensaver.Transport.Capability.Bytes.{
  constant_time_equal_iff, as_bytes-ascii_inj, is_ascii, as_bytes-ascii, len-ascii,
}
use tokensaver.Codex.Config.{
  is_managed_address, is_managed_path, is_loopback_base_url, validate_loopback_base_url, ok,
}

-- What `authenticate_path` gives for a path that it accepts.
abbrev pub Authenticated : CallerCapability → Str → Str → Type 0
Authenticated secret path out =
    (remainder : Str) × (path ≡ b'/' ∷ secret ++ b'/' ∷ remainder)
    × (out ≡ b'/' ∷ remainder)
    × (is_api_path remainder ≡ true)

parts-Authenticated :
    (secret path out : Str) (parts : Option (Str × Str))
    → is_ascii secret ≡ true
    → split_once b'/' path ≡ parts
    → authenticate_parts secret path parts ≡ some out
    → Authenticated secret (b'/' ∷ path) out
unfolding authenticate_parts
parts-Authenticated secret path out none ascii found h = cc
parts-Authenticated secret path out (some (candidate, remainder)) ascii found h =
    let (shape, _) = split_once-some b'/' path candidate remainder found in
    let equal = constant_time_equal (as_bytes candidate) (as_bytes secret) in
    elim (Bool-cases equal) [
      | inr other ↦ ground arith
      | inl same ↦ elim (Bool-cases (is_api_path remainder)) [
        | inr other ↦ ground arith
        | inl api ↦
            let bytes = (constant_time_equal_iff (as_bytes candidate) (as_bytes secret)).0 same in
            let candidate_is : candidate ≡ secret =
              as_bytes-ascii_inj candidate secret ascii bytes in
            let path_is : path ≡ secret ++ b'/' ∷ remainder = rw (← candidate_is) shape in
            let behind = get_from-append secret (b'/' ∷ remainder) in
            let given : get_from (len secret) path ≡ some out =
              rw (← candidate_is) (ground arith) in
            (remainder, ap (λ p. b'/' ∷ p) path_is, cc, api)
      ]
    ]

authenticate_path-Authenticated :
    (secret path out : Str)
    → is_ascii secret ≡ true
    → authenticate_path secret path ≡ some out
    → Authenticated secret path out
unfolding authenticate_path
authenticate_path-Authenticated secret [] out ascii h = cc
authenticate_path-Authenticated secret (c ∷ path) out ascii h = elim (Bool-cases (c == b'/')) [
  | inr other ↦ ground arith
  | inl slash ↦
      let c_is : c ≡ b'/' = ground arith in
      let found : authenticate_parts secret path (split_once b'/' path) ≡ some out = ground arith in
      rw c_is (parts-Authenticated secret path out (split_once b'/' path) ascii refl found)
]

authenticated_path :
    (secret remainder : Str)
    → lacks b'/' secret ≡ true
    → is_api_path remainder ≡ true
    → authenticate_path secret (b'/' ∷ secret ++ b'/' ∷ remainder) ≡ some (b'/' ∷ remainder)
unfolding authenticate_path authenticate_parts
authenticated_path secret remainder no_slash api =
    let same = (constant_time_equal_iff (as_bytes secret) (as_bytes secret)).1 refl in
    rw (split_once-append b'/' secret remainder no_slash)
      (rw same (rw api (get_from-append secret (b'/' ∷ remainder))))

-- Where the capability is an ASCII text without a slash, a path is authenticated exactly if it is
-- a slash, the capability, a slash and an API path, and what is given is the path behind the
-- capability.
pub authenticate_path_iff :
    (secret path out : Str)
    → is_ascii secret ≡ true
    → lacks b'/' secret ≡ true
    → (authenticate_path secret path ≡ some out) ↔ Authenticated secret path out
authenticate_path_iff secret path out ascii no_slash = (
  authenticate_path-Authenticated secret path out ascii,
  λ (remainder, path_is, out_is, api).
      rw path_is (rw out_is (authenticated_path secret remainder no_slash api)),
)

-- digits and the letters a to f
is_lower_hex : ℕ → Bool
is_lower_hex c = is_ascii_digit c || (leb b'a' c && leb c b'f')

hex_encode-lower :
    (bytes : List ℕ) → All (λ b. b < 256) bytes → all is_lower_hex (hex_encode bytes) ≡ true
unfolding hex_encode is_lower_hex
hex_encode-lower [] h = refl
hex_encode-lower (b ∷ bytes) (small, later) =
    let high : b / 16 < 16 = omega arith in ground (arith, hex_encode-lower bytes)

length-hex_encode : (bytes : List ℕ) → length (hex_encode bytes) ≡ 2 * length bytes
unfolding hex_encode
length-hex_encode [] = refl
length-hex_encode (b ∷ bytes) = omega (arith, length-hex_encode bytes)

to_ascii_lowercase-lower : (s : Str) → all is_lower_hex s ≡ true → to_ascii_lowercase s ≡ s
unfolding to_ascii_lowercase ascii_lower is_lower_hex
to_ascii_lowercase-lower [] h = refl
to_ascii_lowercase-lower (c ∷ s) h =
    let same : ascii_lower c ≡ c = ground arith in
    let later : all is_lower_hex s ≡ true = ground arith in
    rw same (ap (λ t. c ∷ t) (to_ascii_lowercase-lower s later))

lacks-lower : (s : Str) → all is_lower_hex s ≡ true → lacks b'/' s ≡ true
unfolding is_lower_hex
lacks-lower [] h = refl
lacks-lower (c ∷ s) h = ground (arith, lacks-lower s)

is_ascii-lower : (s : Str) → all is_lower_hex s ≡ true → is_ascii s ≡ true
unfolding is_lower_hex
is_ascii-lower s h = all_mono is_lower_hex (λ c. ltb c 0x80) s (λ c k. ground arith) h

is_hexdigit-lower : (s : Str) → all is_lower_hex s ≡ true → all is_ascii_hexdigit s ≡ true
unfolding is_lower_hex
is_hexdigit-lower s h = all_mono is_lower_hex is_ascii_hexdigit s (λ c k. ground arith) h

module _ (port : ℕ) (secret : Str) (positive : 0 < port) (fits : port ≤ u16_max)
    (hex : all is_lower_hex secret ≡ true) (long : length secret ≡ capability_hex_length) where
  path_parts : split b'/' (secret ++ b'/' ∷ api_prefix) ≡ secret ∷ api_prefix ∷ []
  unfolding split
  path_parts = split-append b'/' secret api_prefix (lacks-lower secret hex)

  len_is : len secret ≡ capability_hex_length
  len_is = len-ascii secret (is_ascii-lower secret hex) ∙ long

  hex_bytes : all is_ascii_hexdigit (as_bytes secret) ≡ true
  hex_bytes = rw (as_bytes-ascii secret (is_ascii-lower secret hex)) (is_hexdigit-lower secret hex)

  address_parts :
      split_once b'/' (decimal port ++ b'/' ∷ (secret ++ b'/' ∷ api_prefix))
      ≡ some (decimal port, secret ++ b'/' ∷ api_prefix)
  address_parts =
      split_once-append b'/' (decimal port) (secret ++ b'/' ∷ api_prefix)
        (lacks-decimal b'/' port refl)

  not_zero : (port == 0) ≡ false
  not_zero = ground arith

  from_loopback_base_url-loopback_base_url :
      from_loopback_base_url (loopback_base_url port secret) ≡ some (port, secret)
  unfolding from_loopback_base_url loopback_base_url owned_address owned_path with_port str_eq
      strip_prefix
  from_loopback_base_url-loopback_base_url = rw (address_parts) (
      rw path_parts (
        rw len_is (
          rw hex_bytes (
            rw (parse_unsigned-decimal u16_max port fits, with_port)
              (rw not_zero (rw (to_ascii_lowercase-lower secret hex) refl))))))

  -- printable, and without a meaning of its own in a URL's path
  is_path_char : ℕ → Bool
  is_path_char c = ltb 32 c && ltb c 0x80 && not (c == b'?') && not (c == b'#')

  url_chars : all is_path_char (loopback_base_url port secret) ≡ true
  unfolding loopback_base_url is_path_char is_lower_hex
  url_chars =
      all-append is_path_char (codes "http://127.0.0.1:")
        (decimal port ++ b'/' ∷ (secret ++ b'/' ∷ api_prefix)) refl
        (all-append is_path_char (decimal port) (b'/' ∷ (secret ++ b'/' ∷ api_prefix))
          (all_mono is_ascii_digit is_path_char (decimal port) (λ c k. ground arith)
            (all_digits-decimal port))
          (all-append is_path_char secret (b'/' ∷ api_prefix)
            (all_mono is_lower_hex is_path_char secret (λ c k. ground arith) hex) refl))

  is_loopback_base_url-loopback_base_url :
      is_loopback_base_url (loopback_base_url port secret) ≡ true
  unfolding is_loopback_base_url is_managed_address is_managed_path loopback_base_url is_path_char
      str_eq strip_prefix is_whitespace
  is_loopback_base_url-loopback_base_url =
      let url = loopback_base_url port secret in
      let no_query = contains-false is_path_char url b'?' (λ c k. ground arith) url_chars in
      let no_fragment = contains-false is_path_char url b'#' (λ c k. ground arith) url_chars in
      let no_space = any-false is_path_char is_whitespace url (λ c k. ground arith) url_chars in
      rw no_query (
        rw no_fragment (
          rw no_space (
            rw address_parts (
              rw (parse_unsigned-decimal u16_max port fits, is_managed_address)
                (rw not_zero (rw (path_parts, is_managed_path) (rw len_is (rw hex_bytes refl))))))))

-- The URL of a new capability, whatever its random bytes are, is accepted by the Codex
-- configuration for every port but 0, and the port and the capability are read back from it.
pub loopback_base_url-generate :
    (port : ℕ) (bytes : List ℕ)
    → 0 < port
    → port ≤ u16_max
    → length bytes ≡ capability_bytes
    → All (λ b. b < 256) bytes
    → (from_loopback_base_url (loopback_base_url port (generate bytes))
        ≡ some (port, generate bytes))
      × (validate_loopback_base_url (loopback_base_url port (generate bytes)) ≡ ok tt)
unfolding generate validate_loopback_base_url
loopback_base_url-generate port bytes positive fits count small =
    let lower = hex_encode-lower bytes small in
    let long : length (hex_encode bytes) ≡ capability_hex_length =
      omega (arith, length-hex_encode bytes) in
    (
      from_loopback_base_url-loopback_base_url port (hex_encode bytes) positive fits lower long,
      rw (is_loopback_base_url-loopback_base_url port (hex_encode bytes) positive fits lower long)
          refl,
    )
