-- ===== src/Security/Hidden.antt =====
-- src/shared/security.rs: in the text that is shown, every local address is hidden.
use mathlib.Core.List.{append_assoc}
use tokensaver.Prelude.{
  ℕ, zero, suc, ◌≤◌, ◌<◌, ◌≡◌, refl, sym, ap, ◌∙◌, ◌⊎◌, inl, inr, Bool, true, not, some, [], ◌∷◌,
  ◌++◌, arith, leb, ◌==◌, Bool-cases, length, length-append, all, drop, Str, codes,
}
use tokensaver.Security.{loopback_prefix, replacement, redact_local_secrets}
use tokensaver.Security.Laws.{HasAddress, Redacts, redact_local_secrets-Redacts}

abbrev pub redacted_tag : Str
redacted_tag = codes "[REDACTED]"

-- Behind every local address of the text stands the tag, and no port and path.
abbrev pub IsHidden : Str → Type 0
IsHidden output =
    (before behind : Str)
    → output ≡ before ++ (loopback_prefix ++ behind)
    → (rest : Str) × (behind ≡ redacted_tag ++ rest)

append_parts :
    (xs ys us vs : Str)
    → xs ++ ys ≡ us ++ vs
    → length xs ≤ length us
    → (w : Str) × (us ≡ xs ++ w) × (ys ≡ w ++ vs)
append_parts [] ys us vs h short = (us, refl, h)
append_parts (x ∷ xs) ys [] vs h short = absurd (omega arith)
append_parts (x ∷ xs) ys (u ∷ us) vs h short =
    let same : x ≡ u = cc in
    let rest : xs ++ ys ≡ us ++ vs = cc in
    let (w, parts, e) = append_parts xs ys us vs rest (omega arith) in (w, rw (same, parts) refl, e)

-- `h`, the first letter of an address, is not within what follows it in the replacement
abbrev not_h : ℕ → Bool
not_h c = not (c == 104)

skip_letters :
    (tail more w z : Str)
    → all not_h tail ≡ true
    → tail ++ more ≡ w ++ 104 ∷ z
    → (w' : Str) × (w ≡ tail ++ w') × (more ≡ w' ++ 104 ∷ z)
skip_letters [] more w z letters h = (w, refl, h)
skip_letters (c ∷ tail) more [] z letters h = let same : c ≡ 104 = cc in absurd (ground arith)
skip_letters (c ∷ tail) more (d ∷ w) z letters h =
    let same : c ≡ d = cc in
    let rest : tail ++ more ≡ w ++ 104 ∷ z = cc in
    let (w', parts, e) = skip_letters tail more w z (ground arith) rest in
    (w', rw (same, parts) refl, e)

-- what follows the address in a replacement
abbrev letters_behind : Str
letters_behind = codes "ttp://127.0.0.1:[REDACTED]"

-- An address that starts before the first one is not there.
address-later :
    (input before after more elsewhere behind : Str)
    → input ≡ before ++ (loopback_prefix ++ after)
    → ((e : Str) → HasAddress input e → length before ≤ length e)
    → before ++ (loopback_prefix ++ more) ≡ elsewhere ++ (loopback_prefix ++ behind)
    → length before ≤ length elsewhere
address-later input before after more elsewhere behind whole first h =
    elim (Bool-cases (leb (length before) (length elsewhere))) [
      | inl within ↦ ground arith
      | inr early ↦
          let left = sym (append_assoc elsewhere loopback_prefix behind) in
          let right = sym (append_assoc before loopback_prefix more) in
          let l1 = length-append elsewhere loopback_prefix in
          let l2 = length-append before loopback_prefix in
          let less : length elsewhere < length before = ground arith in
          let (w, parts, _) =
            append_parts (elsewhere ++ loopback_prefix) behind (before ++ loopback_prefix) more
              (sym left ∙ (sym h ∙ right)) (omega arith) in
          let there : HasAddress input elsewhere = (
            w ++ after,
            whole
                ∙ (sym (append_assoc before loopback_prefix after)
                    ∙ (ap (λ t. t ++ after) parts
                        ∙ (append_assoc (elsewhere ++ loopback_prefix) w after
                            ∙ append_assoc elsewhere loopback_prefix (w ++ after)))),
          ) in
          first elsewhere there
    ]

-- Behind the first place, an address is the one of the place or stands in the rest.
address-behind :
    (more w behind : Str)
    → replacement ++ more ≡ w ++ (loopback_prefix ++ behind)
    → (behind ≡ redacted_tag ++ more) ⊎ ((w' : Str) × (more ≡ w' ++ (loopback_prefix ++ behind)))
address-behind more [] behind h = inl (sym (ap (λ t. drop 17 t) h))
address-behind more (c ∷ w) behind h =
    let (w', _, e) = skip_letters letters_behind more w _ refl (ap (λ t. drop 1 t) h) in inr (w', e)

Redacts-IsHidden : (places : ℕ) (input output : Str) → Redacts places input output → IsHidden output
Redacts-IsHidden zero input output (absent, same) before behind there =
    absurd (absent before (behind, sym same ∙ there))
Redacts-IsHidden (suc places) input output
      (first, token, rest, more, whole, earliest, shown, inside, ends, later) before behind there =
    let h = sym shown ∙ there in
    let within =
      address-later input first (token ++ rest) (redacted_tag ++ more) before behind whole earliest
        h in
    let (w, _, e) =
      append_parts first (replacement ++ more) before (loopback_prefix ++ behind) h within in
    elim (address-behind more w behind e) [
      | inl here ↦ (more, here)
      | inr (w', further) ↦ Redacts-IsHidden places rest more later w' behind further
    ]

-- The redaction of any text ends, with a text in which what stood behind each local address, up to
-- the end of that URL, is replaced, from the first address on, and in which nothing else has
-- changed; behind the last place the text had no local address. In the text that comes out every
-- local address is followed by the tag in place of its port and path.
pub redact_local_secrets-IsHidden :
    (input : Str)
    → (places : ℕ) × (output : Str) × (redact_local_secrets input ≡ some output)
      × Redacts places input output
      × IsHidden output
redact_local_secrets-IsHidden input =
    let (places, output, ends, redacts) = redact_local_secrets-Redacts input in
    (places, output, ends, redacts, Redacts-IsHidden places input output redacts)
