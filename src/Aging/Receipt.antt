-- ===== src/Aging/Receipt.antt =====
-- src/modules/aging/receipt.rs: the previews and the text of a receipt. The digest of a text,
-- `sha256_hex`, comes from the crate sha2 and is a parameter.
pub mod Preview
use tokensaver.Prelude.{
  ℕ, ◌+◌, ◌-◌, Bool, ◌&&◌, Option, none, some, List, [], ◌∷◌, ◌++◌, reverse, ltb, ◌==◌,
  if◌then◌else◌, saturating_add, Str, codes, len_utf16, len, str_eq, decimal,
}

-- The loop of `safe_head`, over the characters that are left: the part of the text before `end`.
head_loop : ℕ → ℕ → Str → Str
head_loop used_units max_units [] = []
head_loop used_units max_units (character ∷ rest) =
    let used = used_units + len_utf16 character in
    let more = head_loop used max_units rest in if ltb max_units used then [] else character ∷ more

unfoldable pub safe_head : Str → ℕ → Str
unfolding head_loop
safe_head value max_utf16_units =
    if max_utf16_units == 0 then [] else head_loop 0 max_utf16_units value

-- `safe_tail` is the same loop from the other end: `char_indices().rev()`, and the part of the
-- text that begins at `start`.
tail_loop : ℕ → ℕ → Str → Str → Str
tail_loop used_units max_units [] kept = kept
tail_loop used_units max_units (character ∷ rest) kept =
    let used = used_units + len_utf16 character in
    let more = tail_loop used max_units rest (character ∷ kept) in
    if ltb max_units used then kept else more

unfoldable pub safe_tail : Str → ℕ → Str
unfolding tail_loop
safe_tail value max_utf16_units =
    if max_utf16_units == 0 then [] else tail_loop 0 max_utf16_units (reverse value) []

pub metadata_prefix : Str
metadata_prefix = codes "[tokensaver-receipt:v1 "

pub begin_marker : Str
begin_marker = codes "--- beginning of original result ---"

pub omitted_marker : Str
omitted_marker = codes "--- omitted middle of original result ---"

pub end_marker : Str
end_marker = codes "--- end of original result ---"

-- `<[String]>::join("\n")`
join_lines : List Str → Str
join_lines [] = []
join_lines (line ∷ []) = line
join_lines (line ∷ lines) = line ++ 10 ∷ join_lines lines

recovery : Option Str → Str
recovery none = codes "the preceding tool call"
recovery (some name) = codes "the preceding " ++ name ++ codes " call"

evidence_line : Str
evidence_line =
    codes "[Evidence boundary: only the beginning and tail below are verbatim. The omitted middle "
    ++ codes "is not present in this receipt and must not be inferred.]"

recovery_line : Str → Str
recovery_line again =
    codes "[Recovery: if exact omitted content is required, repeat "
    ++ again
    ++ codes " with the same arguments only when it is safe to repeat; otherwise obtain the exact "
    ++ codes "source through the normal Codex workflow. Exact recovery is trusted only when UTF-8 "
    ++ codes "byte length and SHA-256 both match this receipt.]"

unfoldable pub build_receipt : (Str → Str) → Str → Option Str → ℕ → Str
unfolding join_lines recovery evidence_line recovery_line metadata_prefix begin_marker
    omitted_marker end_marker
build_receipt sha256_hex value tool_name preview_code_units =
    let bytes = len value in
    let digest = sha256_hex value in
    let head = safe_head value preview_code_units in
    let tail = safe_tail value preview_code_units in
    join_lines (
      (codes "[Older tool result compacted by TokenSaver after the model acted on it: "
        ++ decimal bytes
        ++ codes " bytes, sha256:"
        ++ digest
        ++ codes ".]")
      ∷ (metadata_prefix
          ++ codes "original_bytes="
          ++ decimal bytes
          ++ codes " sha256="
          ++ digest
          ++ codes " head_bytes="
          ++ decimal (len head)
          ++ codes " tail_bytes="
          ++ decimal (len tail)
          ++ codes "]")
      ∷ evidence_line
      ∷ recovery_line (recovery tool_name)
      ∷ []
      ∷ begin_marker
      ∷ head
      ∷ omitted_marker
      ∷ tail
      ∷ end_marker
      ∷ [])

pub record ReceiptEvidence : Type 0 where
  pub original_bytes : ℕ
  pub sha256 : Str
  pub head : Str
  pub tail : Str

unfoldable pub visible_bytes : ReceiptEvidence → ℕ
visible_bytes e = saturating_add (len e.head) (len e.tail)

unfoldable pub omitted_bytes : ReceiptEvidence → ℕ
unfolding visible_bytes
omitted_bytes e = e.original_bytes - visible_bytes e

unfoldable pub verify_exact_candidate : (Str → Str) → ReceiptEvidence → Str → Bool
verify_exact_candidate sha256_hex evidence candidate =
    (len candidate == evidence.original_bytes) && str_eq (sha256_hex candidate) evidence.sha256
