-- ===== src/Aging/Engine/Sound.antt =====
-- src/modules/aging/engine.rs: what stands behind every replacement that the engine proposes.
use mathlib.Core.List.{append_assoc}
use tokensaver.Prelude.{
  ℕ, suc, ◌≤◌, ◌<◌, ◌≡◌, refl, sym, ◌∙◌, inl, inr, true, Option, some, List, [], ◌∷◌, ◌++◌, arith,
  leb, Bool-cases, length, length-append, All, All-append, any, Str, len,
}
use tokensaver.Aging.Model.{
  ToolResultKind, ToolOutput, HistoryItem, text, text_parts, unsupported, tool_result, AgingPolicy,
  textual_value, textual_byte_len, is_model_action,
}
use tokensaver.Aging.Receipt.{build_receipt}
use tokensaver.Aging.Engine.{AgedReplacement, CallNames, tool_name, age_tool_results, call_name_map}
use tokensaver.Aging.Engine.Spec.{
  count_tool_results, is_protected, is_consumed, replacements_sized, spec_replacements,
}
use tokensaver.Aging.Engine.Refines.{age_tool_results-refines}

-- The replacement names a textual tool result of the history that is behind the frontier, larger
-- than the threshold and followed by a model action; it carries that result's receipt, and the
-- receipt is smaller than the result.
pub record IsJustified (sha256_hex : Str → Str) (policy : AgingPolicy) (names : CallNames)
    (input : List HistoryItem) (r : AgedReplacement) : Type 0 where
  pub before : List HistoryItem
  pub output : ToolOutput
  pub later : List HistoryItem
  pub value : Str
  pub at_index : length before ≡ r.item_index
  pub in_history : input ≡ before ++ tool_result r.source_kind r.source_call_id output ∷ later
  pub is_text : textual_value output ≡ some value
  pub measured : textual_byte_len output ≡ some r.bytes_before
  pub behind_frontier : policy.frontier ≤ count_tool_results later
  pub above_threshold : policy.min_bytes < r.bytes_before
  pub consumed : any is_model_action later ≡ true
  pub is_receipt :
      r.receipt
      ≡ build_receipt sha256_hex value (tool_name names r.source_call_id) policy.preview_code_units
  pub receipt_measured : r.bytes_after ≡ len r.receipt
  pub smaller : r.bytes_after < r.bytes_before

module _ (sha256_hex : Str → Str) (policy : AgingPolicy) (names : CallNames)
    (input : List HistoryItem) where
  replacements_sized-IsJustified :
      (index : ℕ) (before : List HistoryItem) (kind : ToolResultKind) (call_id : Option Str)
      (output : ToolOutput) (later : List HistoryItem) (bytes : ℕ) (value : Str)
      → index ≡ length before
      → input ≡ before ++ tool_result kind call_id output ∷ later
      → textual_value output ≡ some value
      → textual_byte_len output ≡ some bytes
      → All
          (IsJustified sha256_hex policy names input)
          (replacements_sized sha256_hex policy names index kind call_id output later (some bytes))
  replacements_sized-IsJustified index before kind call_id output later bytes value at splits v m =
      elim (Bool-cases (is_protected policy later)) [
        | inl near ↦ rw near tt
        | inr far ↦ rw far (elim (Bool-cases (leb bytes policy.min_bytes)) [
          | inl small ↦ rw small tt
          | inr large ↦ rw large (elim (Bool-cases (is_consumed later)) [
            | inr waiting ↦ rw waiting tt
            | inl acted ↦
                rw (acted, v)
                  (let receipt =
                      build_receipt sha256_hex value (tool_name names call_id)
                        policy.preview_code_units in
                    elim (Bool-cases (leb bytes (len receipt))) [
                      | inl longer ↦ rw longer tt
                      | inr shorter ↦ rw shorter (
                        record {
                          before = before;
                          output = output;
                          later = later;
                          value = value;
                          at_index = sym at;
                          in_history = splits;
                          is_text = v;
                          measured = m;
                          behind_frontier = ground arith;
                          above_threshold = ground arith;
                          consumed = acted;
                          is_receipt = refl;
                          receipt_measured = refl;
                          smaller = ground arith;
                        },
                        tt,
                      )
                    ])
          ])
        ])
      ]

  replacements-IsJustified :
      (index : ℕ) (before : List HistoryItem) (kind : ToolResultKind) (call_id : Option Str)
      (output : ToolOutput) (later : List HistoryItem)
      → index ≡ length before
      → input ≡ before ++ tool_result kind call_id output ∷ later
      → All (IsJustified sha256_hex policy names input) (
          replacements_sized sha256_hex policy names index kind call_id output later
            (textual_byte_len output))
  unfolding textual_value textual_byte_len
  replacements-IsJustified index before kind call_id (text v) later at splits =
      replacements_sized-IsJustified index before kind call_id (text v) later _ _ at splits refl
        refl
  replacements-IsJustified index before kind call_id (text_parts vs) later at splits =
      replacements_sized-IsJustified index before kind call_id (text_parts vs) later _ _ at splits
        refl refl
  replacements-IsJustified index before kind call_id unsupported later at splits =
      elim (Bool-cases (is_protected policy later)) [ inl near ↦ rw near tt | inr far ↦ rw far tt ]

  spec_replacements-IsJustified :
      (index : ℕ) (before items : List HistoryItem)
      → index ≡ length before
      → input ≡ before ++ items
      → All
          (IsJustified sha256_hex policy names input)
          (spec_replacements sha256_hex policy names index items)
  spec_replacements-IsJustified index before [] at splits = tt
  spec_replacements-IsJustified index before (tool_result kind call_id output ∷ later) at splits =
      let item = tool_result kind call_id output in
      All-append (IsJustified sha256_hex policy names input) _ _
        (replacements-IsJustified index before kind call_id output later at splits)
        (spec_replacements-IsJustified (suc index) (before ++ item ∷ []) later
          (omega (arith, length-append before (item ∷ [])))
          (splits ∙ sym (append_assoc before (item ∷ []) later)))
  spec_replacements-IsJustified index before (item ∷ later) at splits =
      spec_replacements-IsJustified (suc index) (before ++ item ∷ []) later
        (omega (arith, length-append before (item ∷ [])))
        (splits ∙ sym (append_assoc before (item ∷ []) later))

-- Every replacement of an enabled pass is justified by an item of the history.
pub age_tool_results-IsJustified :
    (sha256_hex : Str → Str) (input : List HistoryItem) (policy : AgingPolicy)
    → policy.enabled ≡ true
    → All
        (IsJustified sha256_hex policy (call_name_map input) input)
        (age_tool_results sha256_hex input policy).replacements
age_tool_results-IsJustified sha256_hex input policy on =
    rw ((age_tool_results-refines sha256_hex input policy on).1) (
      spec_replacements-IsJustified sha256_hex policy (call_name_map input) input 0 [] input refl
        refl)
