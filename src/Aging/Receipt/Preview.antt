-- ===== src/Aging/Receipt/Preview.antt =====
-- src/modules/aging/receipt.rs: what `safe_head` and `safe_tail` keep of a text.
use mathlib.Core.List.{reverse_aux, reverse-cons, reverse-append, reverse-reverse}
use tokensaver.Prelude.{
  ℕ, zero, suc, ◌+◌, ◌≤◌, ◌<◌, ◌≡◌, refl, sym, ap, ◌∙◌, inl, inr, [], ◌∷◌, ◌++◌, reverse, arith,
  ltb, ltb→lt, suc-==-zero, Bool-cases, Str, len_utf16, utf16_units, utf16_units-append,
}
use tokensaver.Aging.Receipt.{head_loop, tail_loop, safe_head, safe_tail}

-- The next character, if there is one, would pass the limit.
abbrev pub NextExceeds : ℕ → ℕ → Str → Type 0
NextExceeds limit used [] = Unit
NextExceeds limit used (character ∷ rest) = limit < used + len_utf16 character

-- `kept` and `rest` make up the text, `kept` stays within the limit, and no longer part would.
pub record IsLongest (limit : ℕ) (value kept rest : Str) : Type 0 where
  pub splits : value ≡ kept ++ rest
  pub within : utf16_units kept ≤ limit
  pub maximal : NextExceeds limit (utf16_units kept) rest

abbrev HeadLoop : ℕ → ℕ → Str → Str → Type 0
HeadLoop used limit value kept =
    (rest : Str) × (value ≡ kept ++ rest)
    × (used + utf16_units kept ≤ limit)
    × NextExceeds limit (used + utf16_units kept) rest

HeadLoop-cons :
    (used limit c : ℕ) (value kept : Str)
    → HeadLoop (used + len_utf16 c) limit value kept
    → HeadLoop used limit (c ∷ value) (c ∷ kept)
unfolding utf16_units
HeadLoop-cons used limit c value kept ([], splits, within, maximal) =
    ([], ap (λ s. c ∷ s) splits, omega arith, tt)
HeadLoop-cons used limit c value kept (d ∷ rest, splits, within, maximal) =
    (d ∷ rest, ap (λ s. c ∷ s) splits, omega arith, omega arith)

head_loop-HeadLoop :
    (used limit : ℕ) (value : Str)
    → used ≤ limit
    → HeadLoop used limit value (head_loop used limit value)
unfolding head_loop utf16_units
head_loop-HeadLoop used limit [] h = ([], refl, omega arith, tt)
head_loop-HeadLoop used limit (c ∷ value) h = elim (Bool-cases (ltb limit (used + len_utf16 c))) [
  | inl over ↦ rw over (c ∷ value, refl, omega arith, omega (arith, ltb→lt _ _ over))
  | inr fits ↦ rw fits (
      HeadLoop-cons used limit c value _
        (head_loop-HeadLoop (used + len_utf16 c) limit value (ground arith)))
]

len_utf16-pos : (c : ℕ) → 0 < len_utf16 c
unfolding len_utf16
len_utf16-pos c = ground arith

nothing_fits : (value : Str) → NextExceeds 0 0 value
nothing_fits [] = tt
nothing_fits (c ∷ value) = omega (arith, len_utf16-pos c)

IsLongest-of_loop :
    (limit : ℕ) (value kept : Str)
    → HeadLoop 0 limit value kept
    → (rest : Str) × IsLongest limit value kept rest
IsLongest-of_loop limit value kept ([], splits, within, maximal) =
    ([], record { splits = splits; within = omega arith; maximal = tt })
IsLongest-of_loop limit value kept (c ∷ rest, splits, within, maximal) =
    (c ∷ rest, record { splits = splits; within = omega arith; maximal = omega arith })

-- The head preview is the longest beginning of the text that has at most `limit` UTF-16 units.
pub safe_head-IsLongest :
    (value : Str) (limit : ℕ) → (rest : Str) × IsLongest limit value (safe_head value limit) rest
unfolding safe_head utf16_units
safe_head-IsLongest value zero =
    (value, record { splits = refl; within = omega arith; maximal = nothing_fits value })
safe_head-IsLongest value (suc limit) = rw suc-==-zero (
    IsLongest-of_loop (suc limit) value (head_loop 0 (suc limit) value)
      (head_loop-HeadLoop 0 (suc limit) value (omega arith)))

tail_loop-eq :
    (used limit : ℕ) (value kept : Str)
    → tail_loop used limit value kept ≡ reverse_aux (head_loop used limit value) kept
unfolding head_loop tail_loop
tail_loop-eq used limit [] kept = refl
tail_loop-eq used limit (c ∷ value) kept = elim (Bool-cases (ltb limit (used + len_utf16 c))) [
  | inl over ↦ rw over
  | inr fits ↦ rw fits (tail_loop-eq (used + len_utf16 c) limit value (c ∷ kept))
]

-- The tail preview mirrors the head preview.
safe_tail-eq :
    (value : Str) (limit : ℕ) → safe_tail value limit ≡ reverse (safe_head (reverse value) limit)
unfolding safe_head safe_tail
safe_tail-eq value zero = refl
safe_tail-eq value (suc limit) = rw suc-==-zero (tail_loop-eq 0 (suc limit) (reverse value) [])

utf16_units-reverse : (s : Str) → utf16_units (reverse s) ≡ utf16_units s
unfolding utf16_units
utf16_units-reverse [] = refl
utf16_units-reverse (c ∷ s) =
    rw reverse-cons (utf16_units-append (reverse s) (c ∷ []) ∙ omega (arith, utf16_units-reverse s))

-- The tail preview is the longest end of the text that has at most `limit` UTF-16 units.
pub safe_tail-IsLongest :
    (value : Str) (limit : ℕ)
    → (before : Str) × (value ≡ before ++ safe_tail value limit)
      × (utf16_units (safe_tail value limit) ≤ limit)
      × NextExceeds limit (utf16_units (safe_tail value limit)) (reverse before)
safe_tail-IsLongest value limit =
    let kept = safe_head (reverse value) limit in
    let (rest, longest) = safe_head-IsLongest (reverse value) limit in
    let turned : value ≡ reverse rest ++ reverse kept =
      sym (reverse-reverse value) ∙ ap reverse longest.splits ∙ reverse-append kept rest in
    rw (safe_tail-eq value limit) (
      rw (utf16_units-reverse kept)
        (reverse rest, turned, longest.within, rw (reverse-reverse rest) longest.maximal))
