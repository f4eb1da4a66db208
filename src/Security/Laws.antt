-- ===== src/Security/Laws.antt =====
-- src/shared/security.rs: the redaction ends, and no URL with the prefix keeps what followed it.
use tokensaver.Prelude.{
  ℕ, zero, suc, ◌≤◌, ◌<◌, ◌≡◌, refl, ap, ◌∙◌, ◌⊎◌, inl, inr, Bool, true, not, Option, none, some,
  [], ◌∷◌, ◌++◌, arith, Bool-cases, Option-cases, length, length-append, all, Str, strip_prefix,
  strip_prefix-some, strip_prefix-append, pair_cases,
}
use tokensaver.Security.{
  loopback_prefix, replacement, find_prefix, ends_token, drop_token, redact_local_secrets, one_more,
  find_at, shown_before, redact_loop,
}

abbrev all_inside : Str → Bool
all_inside s = all (λ c. not (ends_token c)) s

-- at the end, or at a character that ends a URL
abbrev is_ended : Str → Bool
is_ended [] = true
is_ended (c ∷ s) = ends_token c

-- The text has the prefix behind `before`.
abbrev pub HasAddress : Str → Str → Type 0
HasAddress input before = (behind : Str) × (input ≡ before ++ (loopback_prefix ++ behind))

-- The output is the text with what follows the prefix, up to the end of the URL, replaced at each
-- place, from the first one on: nothing before the place has the prefix, and behind the last place
-- there is none.
abbrev pub Redacts : ℕ → Str → Str → Type 0
Redacts zero input output = ((elsewhere : Str) → ¬ HasAddress input elsewhere) × (output ≡ input)
Redacts (suc places) input output =
    (before : Str) × (token : Str) × (rest : Str) × (more : Str) × (input
      ≡ before ++ (loopback_prefix ++ (token ++ rest)))
    × ((elsewhere : Str) → HasAddress input elsewhere → length before ≤ length elsewhere)
    × (output ≡ before ++ (replacement ++ more))
    × (all_inside token ≡ true)
    × (is_ended rest ≡ true)
    × Redacts places rest more

one_more-some :
    (c : ℕ) (o : Option (Str × Str)) (before behind : Str)
    → one_more c o ≡ some (before, behind)
    → (b : Str) × (o ≡ some (b, behind)) × (before ≡ c ∷ b)
unfolding one_more
one_more-some c none before behind h = cc
one_more-some c (some (b, r)) before behind h = (b, cc, cc)

find_at-some :
    (c : ℕ) (later : Option (Str × Str)) (o : Option Str) (before behind : Str)
    → find_at c later o ≡ some (before, behind)
    → ((o ≡ some behind) × (before ≡ []))
      ⊎ ((b : Str) × (later ≡ some (b, behind)) × (before ≡ c ∷ b))
unfolding find_at
find_at-some c later (some r) before behind h = inl (cc, cc)
find_at-some c later none before behind h = inr (one_more-some c later before behind h)

find_prefix-some :
    (s before behind : Str)
    → find_prefix s ≡ some (before, behind)
    → s ≡ before ++ (loopback_prefix ++ behind)
unfolding find_prefix
find_prefix-some [] before behind h = cc
find_prefix-some (c ∷ s) before behind h =
    elim (find_at-some c (find_prefix s) (strip_prefix loopback_prefix (c ∷ s)) before behind h) [
      | inl (here, nothing_before) ↦
          rw nothing_before (strip_prefix-some loopback_prefix (c ∷ s) behind here)
      | inr (b, later, one) ↦ rw one (ap (λ t. c ∷ t) (find_prefix-some s b behind later))
    ]

-- a prefix that is there is found, and none behind it
find_prefix-append :
    (elsewhere behind : Str)
    → (found : Str × Str) × (find_prefix (elsewhere ++ (loopback_prefix ++ behind)) ≡ some found)
      × (length found.0 ≤ length elsewhere)
unfolding find_prefix find_at one_more
find_prefix-append [] behind =
    (([], behind), rw (strip_prefix-append loopback_prefix behind, find_at), omega arith)
find_prefix-append (c ∷ elsewhere) behind =
    let ((before, after), found, short) = find_prefix-append elsewhere behind in
    elim (Option-cases
      (strip_prefix loopback_prefix (c ∷ elsewhere ++ (loopback_prefix ++ behind)))) [
        | inl absent ↦ ((c ∷ before, after), rw (absent, found), omega arith)
        | inr (here, e) ↦ (([], here), rw e, omega arith)
      ]

find_prefix-none : (input elsewhere : Str) → find_prefix input ≡ none → ¬ HasAddress input elsewhere
find_prefix-none input elsewhere absent (behind, whole) =
    let (found, e, _) = find_prefix-append elsewhere behind in let there = rw whole at absent in cc

find_prefix-first :
    (input before behind elsewhere : Str)
    → find_prefix input ≡ some (before, behind)
    → HasAddress input elsewhere
    → length before ≤ length elsewhere
find_prefix-first input before behind elsewhere first (after, whole) =
    let (found, e, short) = find_prefix-append elsewhere after in
    let there = rw whole at first in let same : found ≡ (before, behind) = cc in rw same at short

drop_token-split :
    (s : Str)
    → (token : Str) × (s ≡ token ++ drop_token s)
      × (all_inside token ≡ true)
      × (is_ended (drop_token s) ≡ true)
unfolding drop_token
drop_token-split [] = ([], refl, refl, refl)
drop_token-split (c ∷ s) = elim (Bool-cases (ends_token c)) [
  | inl ended ↦ rw ended ([], refl, refl, ended)
  | inr inside ↦
      let (token, whole, all_in, stops) = drop_token-split s in
      rw inside (c ∷ token, ap (λ t. c ∷ t) whole, rw inside all_in, stops)
]

-- the rest is shorter
rest-shorter :
    (input before behind token rest : Str)
    → input ≡ before ++ (loopback_prefix ++ behind)
    → behind ≡ token ++ rest
    → length rest < length input
rest-shorter input before behind token rest h k =
    let whole = ap length h ∙ length-append before (loopback_prefix ++ behind) in
    let inner = length-append loopback_prefix behind in
    let last = ap length k ∙ length-append token rest in omega (arith, whole, inner, last)

shown_before-some :
    (before : Str) (o : Option Str) (more : Str)
    → o ≡ some more
    → shown_before before o ≡ some (before ++ (replacement ++ more))
unfolding shown_before
shown_before-some before none more h = cc
shown_before-some before (some m) more h = cc

redact_loop-Redacts :
    (fuel : ℕ) (input : Str)
    → length input < fuel
    → (places : ℕ) × (output : Str) × (redact_loop fuel input ≡ some output)
      × Redacts places input output
unfolding redact_loop
redact_loop-Redacts zero input h = elim h [ ]
redact_loop-Redacts (suc fuel) input h = elim (pair_cases (find_prefix input)) [
  | inl absent ↦ (
    zero,
    input,
    rw (absent, redact_loop) refl,
    (λ elsewhere. find_prefix-none input elsewhere absent, refl),
  )
  | inr (before, behind, found) ↦
      let whole = find_prefix-some input before behind found in
      let (token, parts, inside, stops) = drop_token-split behind in
      let rest = drop_token behind in
      let shorter = rest-shorter input before behind token rest whole parts in
      let (places, more, ended, later) = redact_loop-Redacts fuel rest (omega arith) in
      (
        suc places,
        before ++ (replacement ++ more),
        rw (found, redact_loop) (shown_before-some before (redact_loop fuel rest) more ended),
        (
          before,
          token,
          rest,
          more,
          whole ∙ ap (λ t. before ++ (loopback_prefix ++ t)) parts,
          λ elsewhere. find_prefix-first input before behind elsewhere found,
          refl,
          inside,
          stops,
          later,
        ),
      )
]

-- The redaction of any text ends, with a text in which what stood behind each local address, up to
-- the end of that URL, is replaced, from the first address on, and in which nothing else has
-- changed; behind the last place the text has no local address.
pub redact_local_secrets-Redacts :
    (input : Str)
    → (places : ℕ) × (output : Str) × (redact_local_secrets input ≡ some output)
      × Redacts places input output
unfolding redact_local_secrets
redact_local_secrets-Redacts input = redact_loop-Redacts (suc (length input)) input (omega arith)
