-- ===== src/Prelude/Text.antt =====
-- A Rust `str` as the list of its characters (Unicode scalar values), with its UTF-8 and UTF-16
-- measures, and the operations of the standard library that the program uses.
use Prim.Native.Nat.{ℕ, zero, suc, ◌+◌, ◌/◌, ◌%◌}
use Prim.Native.Char.{code}
use Prim.Native.String.{String}
use mathlib.Core.Path.{◌≡◌, refl, sym, ap, ◌∙◌}
use mathlib.Core.Logic.{◌≢◌}
use mathlib.Core.Bool.{Bool, true, false, ◌&&◌, ◌||◌}
use mathlib.Core.Option.{Option, none, some}
use mathlib.Core.List.{List, [], ◌∷◌, ◌++◌, map, reverse, reverse-cons, reverse-reverse}
use native.Mathlib.Omega.{arith}
use tokensaver.Prelude.Tests.{ltb, leb, ◌==◌, if◌then◌else◌}

abbrev pub Str : Type 0
Str = List ℕ

-- The characters of a literal.
abbrev pub codes : String → Str
codes String.[] = []
codes (String.◌∷◌ c s) = code c ∷ codes s

-- `char::len_utf8`
unfoldable pub len_utf8 : ℕ → ℕ
len_utf8 c = if ltb c 0x80 then 1 else if ltb c 0x800 then 2 else if ltb c 0x10000 then 3 else 4

-- `char::len_utf16`
unfoldable pub len_utf16 : ℕ → ℕ
len_utf16 c = if ltb c 0x10000 then 1 else 2

-- `str::len`: the bytes of the UTF-8 form
unfoldable pub len : Str → ℕ
len [] = 0
len (c ∷ s) = len_utf8 c + len s

-- the bytes of a character's UTF-8 form, and of a text's: `str::as_bytes`
unfoldable pub utf8_bytes : ℕ → List ℕ
utf8_bytes c =
    if ltb c 0x80
    then c ∷ []
    else if ltb c 0x800
    then (0xc0 + c / 0x40) ∷ (0x80 + c % 0x40) ∷ []
    else if ltb c 0x10000
    then (0xe0 + c / 0x1000) ∷ (0x80 + c / 0x40 % 0x40) ∷ (0x80 + c % 0x40) ∷ []
    else (0xf0 + c / 0x40000)
      ∷ (0x80 + c / 0x1000 % 0x40)
      ∷ (0x80 + c / 0x40 % 0x40)
      ∷ (0x80 + c % 0x40)
      ∷ []

unfoldable pub as_bytes : Str → List ℕ
unfolding utf8_bytes
as_bytes [] = []
as_bytes (c ∷ s) = utf8_bytes c ++ as_bytes s

unfoldable pub utf16_units : Str → ℕ
utf16_units [] = 0
utf16_units (c ∷ s) = len_utf16 c + utf16_units s

unfoldable pub str_eq : Str → Str → Bool
str_eq [] [] = true
str_eq [] (d ∷ t) = false
str_eq (c ∷ s) [] = false
str_eq (c ∷ s) (d ∷ t) = (c == d) && str_eq s t

-- `<` of `str`: by the first character that differs, as the bytes of the UTF-8 forms compare
unfoldable pub str_ltb : Str → Str → Bool
str_ltb [] [] = false
str_ltb [] (d ∷ t) = true
str_ltb (c ∷ s) [] = false
str_ltb (c ∷ s) (d ∷ t) = ltb c d || ((c == d) && str_ltb s t)

-- `str::strip_prefix`: what follows the prefix
unfoldable pub strip_prefix : Str → Str → Option Str
strip_prefix [] s = some s
strip_prefix (p ∷ ps) [] = none
strip_prefix (p ∷ ps) (c ∷ s) = if p == c then strip_prefix ps s else none

-- `str::split_once` at one character
unfoldable pub split_once : ℕ → Str → Option (Str × Str)
split_once sep [] = none
split_once sep (c ∷ s) =
    let rest = split_once sep s in
    if c == sep then some ([], s) else elim rest [ none ↦ none | some (a, b) ↦ some (c ∷ a, b) ]

-- `char::is_whitespace`: the characters with the property White_Space
unfoldable pub is_whitespace : ℕ → Bool
is_whitespace c =
    (leb 9 c && leb c 13)
    || (c == 32)
    || (c == 0x85)
    || (c == 0xa0)
    || (c == 0x1680)
    || (leb 0x2000 c && leb c 0x200a)
    || (c == 0x2028)
    || (c == 0x2029)
    || (c == 0x202f)
    || (c == 0x205f)
    || (c == 0x3000)

-- `trim_start`
trim_start : Str → Str
trim_start [] = []
trim_start (c ∷ s) = let rest = trim_start s in if is_whitespace c then rest else c ∷ s

unfoldable pub trim : Str → Str
unfolding trim_start is_whitespace
trim s = reverse (trim_start (reverse (trim_start s)))

unfoldable pub ascii_lower : ℕ → ℕ
ascii_lower c = if leb b'A' c && leb c b'Z' then c + 32 else c

unfoldable pub to_ascii_lowercase : Str → Str
unfolding ascii_lower
to_ascii_lowercase s = map ascii_lower s

-- a character more for the first piece
prepend : ℕ → List Str → List Str
prepend c [] = (c ∷ []) ∷ []
prepend c (piece ∷ pieces) = (c ∷ piece) ∷ pieces

-- `str::split` at one character: a text without it is one piece
unfoldable pub split : ℕ → Str → List Str
unfolding prepend
split sep [] = [] ∷ []
split sep (c ∷ s) = let pieces = split sep s in if c == sep then [] ∷ pieces else prepend c pieces

-- The decimal digits of a number, as `Display` writes them; a number below the fuel is written out.
unfoldable pub decimal_loop : ℕ → ℕ → Str → Str
decimal_loop zero n acc = acc
decimal_loop (suc fuel) n acc =
    let digit = 48 + n % 10 in
    let rest = decimal_loop fuel (n / 10) (digit ∷ acc) in if ltb n 10 then digit ∷ acc else rest

unfoldable pub decimal : ℕ → Str
unfolding decimal_loop
decimal n = decimal_loop (suc n) n []

pub len-append : (s t : Str) → len (s ++ t) ≡ len s + len t
unfolding len
len-append [] t = omega arith
len-append (c ∷ s) t = omega (arith, len-append s t)

pub utf16_units-append : (s t : Str) → utf16_units (s ++ t) ≡ utf16_units s + utf16_units t
unfolding utf16_units
utf16_units-append [] t = omega arith
utf16_units-append (c ∷ s) t = omega (arith, utf16_units-append s t)

pub str_eq-true : (s t : Str) → str_eq s t ≡ true → s ≡ t
unfolding str_eq
str_eq-true [] [] h = refl
str_eq-true [] (d ∷ t) h = cc
str_eq-true (c ∷ s) [] h = cc
str_eq-true (c ∷ s) (d ∷ t) h = ground (arith, str_eq-true s t)

pub str_eq_refl : (s : Str) → str_eq s s ≡ true
unfolding str_eq
str_eq_refl [] = refl
str_eq_refl (c ∷ s) = ground (arith, str_eq_refl s)

pub strip_prefix-append : (p s : Str) → strip_prefix p (p ++ s) ≡ some s
unfolding strip_prefix
strip_prefix-append [] s = refl
strip_prefix-append (c ∷ p) s = ground (arith, strip_prefix-append p s)

-- What is stripped was there.
pub strip_prefix-some : (p s r : Str) → strip_prefix p s ≡ some r → s ≡ p ++ r
unfolding strip_prefix
strip_prefix-some [] s r h = ground arith
strip_prefix-some (c ∷ p) [] r h = cc
strip_prefix-some (c ∷ p) (d ∷ s) r h = ground (arith, strip_prefix-some p s r)

pub str_eq_sym : (s t : Str) → str_eq s t ≡ str_eq t s
unfolding str_eq
str_eq_sym [] [] = refl
str_eq_sym [] (d ∷ t) = refl
str_eq_sym (c ∷ s) [] = refl
str_eq_sym (c ∷ s) (d ∷ t) = ground (arith, str_eq_sym s t)

pub str_ltb_irrefl : (s : Str) → str_ltb s s ≡ false
unfolding str_ltb
str_ltb_irrefl [] = refl
str_ltb_irrefl (c ∷ s) = ground (arith, str_ltb_irrefl s)

pub str_ltb_trans : (s t u : Str) → str_ltb s t ≡ true → str_ltb t u ≡ true → str_ltb s u ≡ true
unfolding str_ltb
str_ltb_trans [] [] u h k = cc
str_ltb_trans [] (d ∷ t) [] h k = cc
str_ltb_trans [] (d ∷ t) (e ∷ u) h k = refl
str_ltb_trans (c ∷ s) [] u h k = cc
str_ltb_trans (c ∷ s) (d ∷ t) [] h k = cc
str_ltb_trans (c ∷ s) (d ∷ t) (e ∷ u) h k = ground (arith, str_ltb_trans s t u)

pub str_ltb_total : (s t : Str) → str_eq s t ≡ false → str_ltb s t ≡ false → str_ltb t s ≡ true
unfolding str_eq str_ltb
str_ltb_total [] [] h k = cc
str_ltb_total [] (d ∷ t) h k = cc
str_ltb_total (c ∷ s) [] h k = refl
str_ltb_total (c ∷ s) (d ∷ t) h k = ground (arith, str_ltb_total s t)

trim_start-append : (s : Str) (c : ℕ) → is_whitespace c ≡ false → trim_start (s ++ c ∷ []) ≢ []
unfolding trim_start
trim_start-append [] c h k = ground arith
trim_start-append (d ∷ s) c h k = ground (arith, trim_start-append s c h)

-- A text that begins with another character than white space is not trimmed to nothing.
pub trim-cons : (c : ℕ) (s : Str) → is_whitespace c ≡ false → trim (c ∷ s) ≢ []
unfolding trim trim_start
trim-cons c s h k =
    let shape = reverse-cons c s in
    let rest = trim_start (reverse s ++ c ∷ []) in
    let whole : reverse rest ≡ [] = rw (← shape) (ground arith) in
    trim_start-append (reverse s) c h (sym (reverse-reverse rest) ∙ ap reverse whole)
