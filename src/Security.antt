-- ===== src/Security.antt =====
-- src/shared/security.rs: local URLs taken out of what is shown. The loop has fuel, one more than
-- the characters of the text; it answers `none` where the fuel ends first.
pub mod Hidden
pub mod Laws
use tokensaver.Prelude.{
  ℕ, zero, suc, Bool, ◌||◌, Option, none, some, [], ◌∷◌, ◌++◌, if◌then◌else◌, length, contains, Str,
  codes, strip_prefix, is_whitespace,
}

abbrev pub loopback_prefix : Str
loopback_prefix = codes "http://127.0.0.1:"

abbrev pub replacement : Str
replacement = codes "http://127.0.0.1:[REDACTED]"

one_more : ℕ → Option (Str × Str) → Option (Str × Str)
one_more c none = none
one_more c (some (before, behind)) = some (c ∷ before, behind)

-- the prefix is here, or later
find_at : ℕ → Option (Str × Str) → Option Str → Option (Str × Str)
unfolding one_more
find_at c later (some behind) = some ([], behind)
find_at c later none = one_more c later

-- `remaining.find(PREFIX)`, with what stands before the prefix and behind it
unfoldable pub find_prefix : Str → Option (Str × Str)
unfolding find_at
find_prefix [] = none
find_prefix (c ∷ s) =
    let later = find_prefix s in find_at c later (strip_prefix loopback_prefix (c ∷ s))

-- the characters that end a URL
unfoldable pub ends_token : ℕ → Bool
ends_token c = is_whitespace c || contains (codes "\"',;)]}") c

unfoldable pub drop_token : Str → Str
drop_token [] = []
drop_token (c ∷ s) = let rest = drop_token s in if ends_token c then c ∷ s else rest

shown_before : Str → Option Str → Option Str
shown_before before none = none
shown_before before (some output) = some (before ++ (replacement ++ output))

-- `while let Some(start) = remaining.find(PREFIX) { .. }`
redact_loop : ℕ → Str → Option Str
unfolding shown_before
redact_loop zero remaining = none
redact_loop (suc fuel) remaining = elim (find_prefix remaining) [
  | none ↦ some remaining
  | some (before, behind) ↦ shown_before before (redact_loop fuel (drop_token behind))
]

unfoldable pub redact_local_secrets : Str → Option Str
unfolding redact_loop
redact_local_secrets input = redact_loop (suc (length input)) input
