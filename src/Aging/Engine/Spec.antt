-- ===== src/Aging/Engine/Spec.antt =====
-- The decision on a tool result as a function of the items behind it, with no index and no table:
-- an independent description of src/modules/aging/engine.rs.
use tokensaver.Prelude.{
  ℕ, suc, Bool, Option, none, some, List, [], ◌∷◌, ◌++◌, ltb, leb, if◌then◌else◌, any, Str, len,
}
use tokensaver.Aging.Model.{
  ToolResultKind, ToolOutput, HistoryItem, tool_result, AgingPolicy, textual_value,
  textual_byte_len, is_model_action, is_tool_result,
}
use tokensaver.Aging.Receipt.{build_receipt}
use tokensaver.Aging.Engine.{
  AgingDecision, AgedReplacement, ToolResultEvaluation, CallNames, aged, skipped,
  protected_frontier, unsupported_output, at_or_below_threshold, unconsumed, receipt_not_smaller,
  tool_name,
}

abbrev pub count_tool_results : List HistoryItem → ℕ
count_tool_results [] = 0
count_tool_results (item ∷ items) =
    if is_tool_result item then suc (count_tool_results items) else count_tool_results items

-- Among the newest tool results: fewer than `frontier` of them come later.
abbrev pub is_protected : AgingPolicy → List HistoryItem → Bool
is_protected policy later = ltb (count_tool_results later) policy.frontier

-- The model has acted after the result.
abbrev pub is_consumed : List HistoryItem → Bool
is_consumed later = any is_model_action later

abbrev pub text_or_empty : Option Str → Str
text_or_empty none = []
text_or_empty (some value) = value

abbrev pub bytes_or_zero : Option ℕ → ℕ
bytes_or_zero none = 0
bytes_or_zero (some bytes) = bytes

module _ (sha256_hex : Str → Str) (policy : AgingPolicy) (names : CallNames) where
  abbrev pub receipt_of : Option Str → ToolOutput → Str
  receipt_of call_id output =
      build_receipt sha256_hex (text_or_empty (textual_value output)) (tool_name names call_id)
        policy.preview_code_units

  -- the decision, with the receipt's bytes where a receipt was made
  abbrev pub verdict_sized :
      Option Str → ToolOutput → List HistoryItem → Option ℕ → AgingDecision × Option ℕ
  verdict_sized call_id output later none =
      if is_protected policy later
      then (skipped protected_frontier, none)
      else (skipped unsupported_output, none)
  verdict_sized call_id output later (some before) =
      if is_protected policy later
      then (skipped protected_frontier, none)
      else if leb before policy.min_bytes
      then (skipped at_or_below_threshold, none)
      else if is_consumed later
      then (
        if leb before (len (receipt_of call_id output)) then skipped receipt_not_smaller else aged,
        some (len (receipt_of call_id output)),
      )
      else (skipped unconsumed, none)

  abbrev pub evaluation_sized :
      ℕ
      → ToolResultKind
      → Option Str
      → ToolOutput
      → List HistoryItem
      → Option ℕ
      → ToolResultEvaluation
  evaluation_sized index kind call_id output later bytes = record {
    item_index = index;
    source_kind = kind;
    source_call_id = call_id;
    decision = (verdict_sized call_id output later bytes).0;
    source_bytes = bytes;
    receipt_bytes = (verdict_sized call_id output later bytes).1;
  }

  abbrev pub replacement_sized :
      ℕ → ToolResultKind → Option Str → ToolOutput → Option ℕ → AgedReplacement
  replacement_sized index kind call_id output bytes = record {
    item_index = index;
    source_kind = kind;
    source_call_id = call_id;
    receipt = receipt_of call_id output;
    bytes_before = bytes_or_zero bytes;
    bytes_after = len (receipt_of call_id output);
  }

  abbrev pub replacement_if : AgingDecision → AgedReplacement → List AgedReplacement
  replacement_if aged r = r ∷ []
  replacement_if (skipped _) r = []

  -- the replacement of a result that is aged, and nothing for another
  abbrev pub replacements_sized :
      ℕ
      → ToolResultKind
      → Option Str
      → ToolOutput
      → List HistoryItem
      → Option ℕ
      → List AgedReplacement
  replacements_sized index kind call_id output later bytes =
      replacement_if (verdict_sized call_id output later bytes).0
        (replacement_sized index kind call_id output bytes)

  -- one evaluation for each tool result, from an index on
  abbrev pub spec_evaluations : ℕ → List HistoryItem → List ToolResultEvaluation
  spec_evaluations index [] = []
  spec_evaluations index (tool_result kind call_id output ∷ later) =
      evaluation_sized index kind call_id output later (textual_byte_len output)
      ∷ spec_evaluations (suc index) later
  spec_evaluations index (_ ∷ later) = spec_evaluations (suc index) later

  abbrev pub spec_replacements : ℕ → List HistoryItem → List AgedReplacement
  spec_replacements index [] = []
  spec_replacements index (tool_result kind call_id output ∷ later) =
      replacements_sized index kind call_id output later (textual_byte_len output)
      ++ spec_replacements (suc index) later
  spec_replacements index (_ ∷ later) = spec_replacements (suc index) later
