-- ===== src/Prelude/Slices.antt =====
-- Texts cut at byte offsets and at separators, and numbers that are printed and parsed again.
use Prim.Native.Nat.{ℕ, ◌+◌, ◌-◌, ◌<◌}
use mathlib.Core.Path.{◌≡◌, refl}
use mathlib.Core.Logic.{◌⊎◌, inl, inr}
use mathlib.Core.Bool.{Bool, true, false}
use mathlib.Core.Option.{Option, none, some}
use mathlib.Core.List.{[], ◌∷◌, ◌++◌}
use native.Mathlib.Omega.{arith}
use tokensaver.Prelude.Tests.{leb, ◌==◌, if◌then◌else◌, Bool-cases}
use tokensaver.Prelude.Text.{Str, len_utf8, len, split_once, split}

-- `str::get(n..)`: what follows `n` bytes, if a character begins there
unfoldable pub get_from : ℕ → Str → Option Str
get_from n [] = if n == 0 then some [] else none
get_from n (c ∷ s) =
    let later = get_from (n - len_utf8 c) s in
    if n == 0 then some (c ∷ s) else if leb (len_utf8 c) n then later else none

-- no character of the text is the separator
abbrev pub lacks : ℕ → Str → Bool
lacks sep [] = true
lacks sep (c ∷ s) = if c == sep then false else lacks sep s

len_utf8_pos : (c : ℕ) → 0 < len_utf8 c
unfolding len_utf8
len_utf8_pos c = ground arith

get_from-zero : (s : Str) → get_from 0 s ≡ some s
unfolding get_from
get_from-zero [] = refl
get_from-zero (c ∷ s) = refl

pub get_from-append : (a b : Str) → get_from (len a) (a ++ b) ≡ some b
unfolding get_from len
get_from-append [] b = get_from-zero b
get_from-append (c ∷ a) b =
    let positive = len_utf8_pos c in
    let back : len_utf8 c + len a - len_utf8 c ≡ len a = omega arith in
    let some_bytes : (len_utf8 c + len a == 0) ≡ false = ground arith in
    let enough : leb (len_utf8 c) (len_utf8 c + len a) ≡ true = ground arith in
    rw some_bytes (rw enough (rw back (get_from-append a b)))

pub split_once-append :
    (sep : ℕ) (a b : Str) → lacks sep a ≡ true → split_once sep (a ++ sep ∷ b) ≡ some (a, b)
unfolding split_once
split_once-append sep [] b h = ground arith
split_once-append sep (c ∷ a) b h = ground (arith, split_once-append sep a b)

pub pair_cases : (o : Option (Str × Str)) → (o ≡ none) ⊎ ((a : Str) × (b : Str) × (o ≡ some (a, b)))
pair_cases none = inl refl
pair_cases (some (a, b)) = inr (a, b, refl)

split_once-cases :
    (sep : ℕ) (s : Str)
    → (split_once sep s ≡ none) ⊎ ((a : Str) × (b : Str) × (split_once sep s ≡ some (a, b)))
split_once-cases sep s = pair_cases (split_once sep s)

pub split_once-some :
    (sep : ℕ) (s a b : Str)
    → split_once sep s ≡ some (a, b)
    → (s ≡ a ++ sep ∷ b) × (lacks sep a ≡ true)
unfolding split_once
split_once-some sep [] a b h = cc
split_once-some sep (c ∷ s) a b h = elim (Bool-cases (c == sep)) [
  | inl same ↦ ground arith
  | inr other ↦ elim (split_once-cases sep s) [
    | inl absent ↦ ground arith
    | inr (a', b', found) ↦ ground (arith, split_once-some sep s a' b' found)
  ]
]

pub split-lacks : (sep : ℕ) (a : Str) → lacks sep a ≡ true → split sep a ≡ a ∷ []
unfolding split
split-lacks sep [] h = refl
split-lacks sep (c ∷ a) h = ground (arith, split-lacks sep a)

pub split-append :
    (sep : ℕ) (a b : Str) → lacks sep a ≡ true → split sep (a ++ sep ∷ b) ≡ a ∷ split sep b
unfolding split
split-append sep [] b h = ground arith
split-append sep (c ∷ a) b h = ground (arith, split-append sep a b)
