-- ===== src/Transport/Capability.antt =====
-- src/modules/transport/capability.rs: the secret in the path of TokenSaver's local URL. The random
-- bytes of a new capability are an argument of `generate`.
pub mod Bytes
pub mod Laws
use tokensaver.Prelude.{
  ℕ, ◌+◌, ◌-◌, ◌*◌, ◌/◌, ◌%◌, ◌^◌, Bool, false, ◌&&◌, ◌||◌, Option, none, some, List, [], ◌∷◌, ◌++◌,
  ltb, ◌==◌, if◌then◌else◌, length, all, Str, codes, len, as_bytes, str_eq, strip_prefix,
  split_once, to_ascii_lowercase, split, decimal, is_ascii_hexdigit, parse_unsigned, starts_with,
  get_from,
}
use Prim.Native.Nat.{bit_and, bit_or, bit_xor}

abbrev pub capability_bytes : ℕ
capability_bytes = 32

abbrev pub capability_hex_length : ℕ
capability_hex_length = capability_bytes * 2

abbrev pub api_prefix : Str
api_prefix = codes "v1"

abbrev pub u16_max : ℕ
u16_max = 2 ^ 16 - 1

-- `CallerCapability`: a text of its own
abbrev pub CallerCapability : Type 0
CallerCapability = Str

-- an entry of the table "0123456789abcdef"
unfoldable pub hex_digit : ℕ → ℕ
hex_digit n = if ltb n 10 then b'0' + n else b'a' + (n - 10)

-- `byte >> 4` and `byte & 0x0f` select the digits
unfoldable pub hex_encode : List ℕ → Str
unfolding hex_digit
hex_encode [] = []
hex_encode (byte ∷ bytes) = hex_digit (byte / 16) ∷ hex_digit (byte % 16) ∷ hex_encode bytes

unfoldable pub generate : List ℕ → CallerCapability
generate bytes = hex_encode bytes

unfoldable pub loopback_base_url : ℕ → CallerCapability → Str
loopback_base_url port secret =
    codes "http://127.0.0.1:" ++ (decimal port ++ b'/' ∷ (secret ++ b'/' ∷ api_prefix))

-- the difference that the loop over both texts gathers, with `difference |= left ^ right`
unfoldable pub difference : ℕ → List ℕ → List ℕ → ℕ
difference so_far [] right = so_far
difference so_far (l ∷ left) [] = so_far
difference so_far (l ∷ left) (r ∷ right) = difference (bit_or so_far (bit_xor l r)) left right

unfoldable pub constant_time_equal : List ℕ → List ℕ → Bool
constant_time_equal left right =
    if length left == length right then difference 0 left right == 0 else false

-- the capability of a path with two segments
pub owned_path : List Str → Option CallerCapability
owned_path (secret ∷ prefix ∷ []) =
    if str_eq prefix api_prefix
      && (len secret == capability_hex_length)
      && all is_ascii_hexdigit (as_bytes secret)
    then some secret
    else none
owned_path _ = none

-- the port is parsed once the path has been accepted
pub with_port : Str → Option CallerCapability → Option (ℕ × CallerCapability)
with_port port none = none
with_port port (some secret) = elim (parse_unsigned u16_max port) [
  | none ↦ none
  | some number ↦ if number == 0 then none else some (number, to_ascii_lowercase secret)
]

pub owned_address : Option (Str × Str) → Option (ℕ × CallerCapability)
unfolding owned_path with_port
owned_address none = none
owned_address (some (port, path)) = with_port port (owned_path (split b'/' path))

unfoldable pub from_loopback_base_url : Str → Option (ℕ × CallerCapability)
unfolding owned_address
from_loopback_base_url url = elim (strip_prefix (codes "http://127.0.0.1:") url) [
  | none ↦ none
  | some rest ↦ owned_address (split_once b'/' rest)
]

-- what the path behind the capability may be
unfoldable pub is_api_path : Str → Bool
is_api_path remainder = str_eq remainder api_prefix || starts_with (codes "v1/") remainder

pub authenticate_parts : CallerCapability → Str → Option (Str × Str) → Option Str
authenticate_parts secret path none = none
authenticate_parts secret path (some (candidate, remainder)) =
    if constant_time_equal (as_bytes candidate) (as_bytes secret) && is_api_path remainder
    then get_from (len candidate) path
    else none

unfoldable pub authenticate_path : CallerCapability → Str → Option Str
unfolding authenticate_parts
authenticate_path secret [] = none
authenticate_path secret (c ∷ path) =
    if c == b'/' then authenticate_parts secret path (split_once b'/' path) else none
