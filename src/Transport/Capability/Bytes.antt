-- ===== src/Transport/Capability/Bytes.antt =====
-- src/modules/transport/capability.rs: the comparison in constant time, and the UTF-8 form of ASCII
-- texts.
use tokensaver.Prelude.{
  ℕ, zero, suc, ◌/◌, ◌%◌, ◌≤◌, max, ◌≡◌, refl, sym, ap, ◌∙◌, ◌≢◌, ◌↔◌, inl, inr, Bool, true, List,
  [], ◌∷◌, ◌++◌, arith, ltb, ◌==◌, Bool-cases, length, all, Str, len_utf8, len, utf8_bytes,
  as_bytes,
}
use Prim.Native.Nat.{digits, differ, bit_or, bit_or-bitwise, bit_xor, bit_xor-bitwise}
use tokensaver.Transport.Capability.{difference, constant_time_equal}

differ-zero : (x y : ℕ) → differ x y ≡ 0 → x ≡ y
differ-zero zero y h = sym h
differ-zero (suc x) zero h = cc
differ-zero (suc x) (suc y) h = ap suc (differ-zero x y h)

differ_refl : (x : ℕ) → differ x x ≡ 0
differ_refl zero = refl
differ_refl (suc x) = differ_refl x

digits-or-zero : (n a b : ℕ) → a ≤ n → digits (λ b. b) max n a b ≡ 0 → (a ≡ 0) × (b ≡ 0)
digits-or-zero zero a b h k = (omega arith, k)
digits-or-zero (suc n) zero b h k = (refl, k)
digits-or-zero (suc n) (suc a) b h k =
    let high : digits (λ b. b) max n (suc a / 2) (b / 2) ≡ 0 = omega arith in
    let (left, right) = digits-or-zero n (suc a / 2) (b / 2) (omega arith) high in
    (omega arith, omega arith)

digits-xor-zero : (n a b : ℕ) → a ≤ n → digits (λ b. b) differ n a b ≡ 0 → a ≡ b
digits-xor-zero zero a b h k = omega arith
digits-xor-zero (suc n) zero b h k = sym k
digits-xor-zero (suc n) (suc a) b h k =
    let high : digits (λ b. b) differ n (suc a / 2) (b / 2) ≡ 0 = omega arith in
    let low : differ (suc a % 2) (b % 2) ≡ 0 = omega arith in
    let same = digits-xor-zero n (suc a / 2) (b / 2) (omega arith) high in
    let digit = differ-zero (suc a % 2) (b % 2) low in omega arith

digits-xor_refl : (n a : ℕ) → a ≤ n → digits (λ b. b) differ n a a ≡ 0
digits-xor_refl zero a h = omega arith
digits-xor_refl (suc n) zero h = refl
digits-xor_refl (suc n) (suc a) h =
    let high = digits-xor_refl n (suc a / 2) (omega arith) in
    let low = differ_refl (suc a % 2) in omega arith

bit_or-zero : (a b : ℕ) → bit_or a b ≡ 0 → (a ≡ 0) × (b ≡ 0)
bit_or-zero a b h = digits-or-zero a a b (omega arith) (sym (bit_or-bitwise a b) ∙ h)

bit_xor-zero : (a b : ℕ) → bit_xor a b ≡ 0 → a ≡ b
bit_xor-zero a b h = digits-xor-zero a a b (omega arith) (sym (bit_xor-bitwise a b) ∙ h)

bit_xor_refl : (a : ℕ) → bit_xor a a ≡ 0
bit_xor_refl a = bit_xor-bitwise a a ∙ digits-xor_refl a a (omega arith)

difference-zero :
    (so_far : ℕ) (left right : List ℕ)
    → length left ≡ length right
    → difference so_far left right ≡ 0
    → (so_far ≡ 0) × (left ≡ right)
unfolding difference
difference-zero so_far [] [] h k = (k, refl)
difference-zero so_far [] (r ∷ right) h k = cc
difference-zero so_far (l ∷ left) [] h k = cc
difference-zero so_far (l ∷ left) (r ∷ right) h k =
    let (none_now, later) =
      difference-zero (bit_or so_far (bit_xor l r)) left right (omega arith) k in
    let (none_before, same) = bit_or-zero so_far (bit_xor l r) none_now in
    (none_before, rw (bit_xor-zero l r same) (rw later refl))

difference_refl : (left : List ℕ) → difference 0 left left ≡ 0
unfolding difference
difference_refl [] = refl
difference_refl (l ∷ left) = rw (bit_xor_refl l) (difference_refl left)

-- The comparison in constant time holds of equal bytes, and of no others.
pub constant_time_equal_iff :
    (left right : List ℕ) → (constant_time_equal left right ≡ true) ↔ (left ≡ right)
unfolding constant_time_equal
constant_time_equal_iff left right = (
  λ h. elim (Bool-cases (length left == length right)) [
    | inl same ↦ (difference-zero 0 left right (ground arith) (ground arith)).1
    | inr other ↦ ground arith
  ],
  λ h. rw h (ground (arith, difference_refl right)),
)

-- a text of characters below 0x80
abbrev pub is_ascii : Str → Bool
is_ascii s = all (λ c. ltb c 0x80) s

pub as_bytes-ascii : (s : Str) → is_ascii s ≡ true → as_bytes s ≡ s
unfolding as_bytes utf8_bytes
as_bytes-ascii [] h = refl
as_bytes-ascii (c ∷ s) h =
    let low : ltb c 0x80 ≡ true = ground arith in
    let later : is_ascii s ≡ true = ground arith in rw low (rw (as_bytes-ascii s later) refl)

pub len-ascii : (s : Str) → is_ascii s ≡ true → len s ≡ length s
unfolding len len_utf8
len-ascii [] h = refl
len-ascii (c ∷ s) h =
    let low : ltb c 0x80 ≡ true = ground arith in
    let later : is_ascii s ≡ true = ground arith in rw low (rw (len-ascii s later) (omega arith))

utf8_bytes-low :
    (c b : ℕ) (rest bytes : List ℕ)
    → ltb b 0x80 ≡ true
    → utf8_bytes c ++ rest ≡ b ∷ bytes
    → (c ≡ b) × (rest ≡ bytes)
unfolding utf8_bytes
utf8_bytes-low c b rest bytes low h = ground arith

utf8_bytes-nonempty : (c : ℕ) (rest : List ℕ) → utf8_bytes c ++ rest ≢ []
unfolding utf8_bytes
utf8_bytes-nonempty c rest h = ground arith

text_of_bytes : (s t : Str) → is_ascii t ≡ true → as_bytes s ≡ t → s ≡ t
unfolding as_bytes
text_of_bytes [] [] h k = refl
text_of_bytes [] (d ∷ t) h k = cc
text_of_bytes (c ∷ s) [] h k = elim (utf8_bytes-nonempty c (as_bytes s) k) [ ]
text_of_bytes (c ∷ s) (d ∷ t) h k =
    let low : ltb d 0x80 ≡ true = ground arith in
    let later : is_ascii t ≡ true = ground arith in
    let (same, rest) = utf8_bytes-low c d (as_bytes s) t low k in
    rw same (rw (text_of_bytes s t later rest) refl)

-- Only the text itself has the bytes of an ASCII text.
pub as_bytes-ascii_inj : (s t : Str) → is_ascii t ≡ true → as_bytes s ≡ as_bytes t → s ≡ t
as_bytes-ascii_inj s t h k = text_of_bytes s t h (k ∙ as_bytes-ascii t h)
