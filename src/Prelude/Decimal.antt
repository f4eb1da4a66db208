-- ===== src/Prelude/Decimal.antt =====
-- A number that `Display` writes is parsed again.
use Prim.Native.Nat.{ℕ, zero, suc, ◌+◌, ◌-◌, ◌*◌, ◌/◌, ◌%◌, ◌≤◌, ◌<◌}
use mathlib.Core.Path.{◌≡◌, refl, ◌∙◌}
use mathlib.Core.Logic.{inl, inr}
use mathlib.Core.Bool.{true, false}
use mathlib.Core.Option.{some}
use mathlib.Core.List.{[], ◌∷◌}
use native.Mathlib.Omega.{arith}
use tokensaver.Prelude.Tests.{ltb, leb, Bool-cases}
use tokensaver.Prelude.Lists.{all}
use tokensaver.Prelude.Text.{Str, decimal, decimal_loop}
use tokensaver.Prelude.Slices.{lacks}
use tokensaver.Prelude.Numbers.{is_ascii_digit, parse_digits, parse_unsigned}

parse_digits-decimal_loop :
    (limit fuel n : ℕ) (acc : Str)
    → n < fuel
    → n ≤ limit
    → parse_digits limit (decimal_loop fuel n acc) 0 ≡ parse_digits limit acc n
unfolding decimal_loop parse_digits
parse_digits-decimal_loop limit zero n acc h k = elim h [ ]
parse_digits-decimal_loop limit (suc fuel) n acc h k = elim (Bool-cases (ltb n 10)) [
  | inl last ↦
      let digit : is_ascii_digit (48 + n % 10) ≡ true = ground arith in
      let value : 0 * 10 + (48 + n % 10 - 48) ≡ n = ground arith in
      let fits : leb n limit ≡ true = ground arith in rw last (rw digit (rw value (rw fits refl)))
  | inr more ↦
      let digit : is_ascii_digit (48 + n % 10) ≡ true = ground arith in
      let value : n / 10 * 10 + (48 + n % 10 - 48) ≡ n = ground arith in
      let fits : leb n limit ≡ true = ground arith in
      let below : n / 10 < fuel = ground arith in
      let small : n / 10 ≤ limit = ground arith in
      rw more (
        rw (parse_digits-decimal_loop limit fuel (n / 10) ((48 + n % 10) ∷ acc) below small)
          (rw digit (rw value (rw fits refl))))
]

all_digits-decimal_loop :
    (fuel n : ℕ) (acc : Str)
    → all is_ascii_digit acc ≡ true
    → all is_ascii_digit (decimal_loop fuel n acc) ≡ true
unfolding decimal_loop
all_digits-decimal_loop zero n acc h = h
all_digits-decimal_loop (suc fuel) n acc h =
    let digit : is_ascii_digit (48 + n % 10) ≡ true = ground arith in
    let shown : all is_ascii_digit ((48 + n % 10) ∷ acc) ≡ true = rw digit h in
    elim (Bool-cases (ltb n 10)) [
      | inl last ↦ rw last shown
      | inr more ↦ rw more (all_digits-decimal_loop fuel (n / 10) ((48 + n % 10) ∷ acc) shown)
    ]

decimal_loop-nonempty :
    (fuel n : ℕ) (d : ℕ) (acc : Str)
    → (e : ℕ) × (rest : Str) × (decimal_loop fuel n (d ∷ acc) ≡ e ∷ rest)
unfolding decimal_loop
decimal_loop-nonempty zero n d acc = (d, acc, refl)
decimal_loop-nonempty (suc fuel) n d acc = elim (Bool-cases (ltb n 10)) [
  | inl last ↦ (48 + n % 10, d ∷ acc, rw last refl)
  | inr more ↦ rw more (decimal_loop-nonempty fuel (n / 10) (48 + n % 10) (d ∷ acc))
]

decimal-nonempty : (n : ℕ) → (e : ℕ) × (rest : Str) × (decimal n ≡ e ∷ rest)
unfolding decimal decimal_loop
decimal-nonempty n = elim (Bool-cases (ltb n 10)) [
  | inl last ↦ (48 + n % 10, [], rw last refl)
  | inr more ↦ rw more (decimal_loop-nonempty n (n / 10) (48 + n % 10) [])
]

parse_unsigned-digits :
    (limit c : ℕ) (s text : Str)
    → text ≡ c ∷ s
    → all is_ascii_digit text ≡ true
    → parse_unsigned limit text ≡ parse_digits limit text 0
unfolding parse_unsigned
parse_unsigned-digits limit c s [] shape h = cc
parse_unsigned-digits limit c s (d ∷ []) shape h = ground arith
parse_unsigned-digits limit c s (d ∷ e ∷ text) shape h = ground arith

-- What `Display` writes of a number is parsed as that number, where the type holds it.
pub parse_unsigned-decimal : (limit n : ℕ) → n ≤ limit → parse_unsigned limit (decimal n) ≡ some n
unfolding decimal parse_digits
parse_unsigned-decimal limit n h =
    let (c, s, shape) = decimal-nonempty n in
    parse_unsigned-digits limit c s (decimal n) shape (all_digits-decimal_loop (suc n) n [] refl)
    ∙ parse_digits-decimal_loop limit (suc n) n [] (omega arith) h

pub all_digits-decimal : (n : ℕ) → all is_ascii_digit (decimal n) ≡ true
unfolding decimal
all_digits-decimal n = all_digits-decimal_loop (suc n) n [] refl

digits-lacks :
    (sep : ℕ) (s : Str)
    → is_ascii_digit sep ≡ false
    → all is_ascii_digit s ≡ true
    → lacks sep s ≡ true
digits-lacks sep [] h k = refl
digits-lacks sep (c ∷ s) h k = ground (arith, digits-lacks sep s h)

pub lacks-decimal : (sep n : ℕ) → is_ascii_digit sep ≡ false → lacks sep (decimal n) ≡ true
unfolding decimal
lacks-decimal sep n h = digits-lacks sep (decimal n) h (all_digits-decimal_loop (suc n) n [] refl)
