-- ===== src/Prelude/Numbers.antt =====
-- The standard library's parse of unsigned numbers, and tests on the ends of a text.
use Prim.Native.Nat.{ℕ, ◌+◌, ◌-◌, ◌*◌}
use mathlib.Core.Bool.{Bool, true, false, ◌&&◌, ◌||◌}
use mathlib.Core.Option.{Option, none, some}
use mathlib.Core.List.{[], ◌∷◌, reverse}
use tokensaver.Prelude.Tests.{leb, ◌==◌, if◌then◌else◌}
use tokensaver.Prelude.Text.{Str, strip_prefix}

abbrev pub is_some {ℓ} : {A : Type ℓ} → Option A → Bool
is_some none = false
is_some (some _) = true

-- `u8::is_ascii_digit`
abbrev pub is_ascii_digit : ℕ → Bool
is_ascii_digit c = leb b'0' c && leb c b'9'

-- `u8::is_ascii_hexdigit`
abbrev pub is_ascii_hexdigit : ℕ → Bool
is_ascii_hexdigit c = is_ascii_digit c || (leb b'a' c && leb c b'f') || (leb b'A' c && leb c b'F')

-- the digits of a number that is at most `limit`
unfoldable pub parse_digits : ℕ → Str → ℕ → Option ℕ
parse_digits limit [] n = some n
parse_digits limit (c ∷ s) n =
    let rest = parse_digits limit s (n * 10 + (c - b'0')) in
    if is_ascii_digit c && leb (n * 10 + (c - b'0')) limit then rest else none

-- `str::parse` of an unsigned type whose largest value is `limit`: a sign `+` may stand first, and
-- there is at least one digit.
unfoldable pub parse_unsigned : ℕ → Str → Option ℕ
unfolding parse_digits
parse_unsigned limit [] = none
parse_unsigned limit (c ∷ []) = if c == b'+' then none else parse_digits limit (c ∷ []) 0
parse_unsigned limit (c ∷ d ∷ s) =
    if c == b'+' then parse_digits limit (d ∷ s) 0 else parse_digits limit (c ∷ d ∷ s) 0

-- `str::starts_with` and `str::ends_with`
unfoldable pub starts_with : Str → Str → Bool
starts_with prefix s = is_some (strip_prefix prefix s)

unfoldable pub ends_with : Str → Str → Bool
ends_with suffix s = is_some (strip_prefix (reverse suffix) (reverse s))

skip_all : ℕ → Str → Str
skip_all sep [] = []
skip_all sep (c ∷ s) = let rest = skip_all sep s in if c == sep then rest else c ∷ s

-- `str::trim_end_matches` of one character
unfoldable pub trim_end_matches : ℕ → Str → Str
unfolding skip_all
trim_end_matches sep s = reverse (skip_all sep (reverse s))
