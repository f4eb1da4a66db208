-- ===== src/Aging/Model.antt =====
-- src/modules/aging/model.rs and policy.rs: the history that the aging domain reads, and its policy.
use tokensaver.Prelude.{
  ℕ, ◌+◌, ◌*◌, ◌≤◌, ◌≡◌, ap, ◌∙◌, Bool, true, false, Option, none, some, List, [], ◌∷◌, ◌++◌, arith,
  u64_max, saturating_add, saturating_add-eq, Str, len, len-append,
}

pub data ToolResultKind : Type 0 where
  function custom : ToolResultKind

pub data ToolOutput : Type 0 where
  text : Str → ToolOutput
  text_parts : List Str → ToolOutput
  unsupported : ToolOutput

-- `<[String]>::concat`
unfoldable pub concat : List Str → Str
concat [] = []
concat (p ∷ ps) = p ++ concat ps

unfoldable pub textual_value : ToolOutput → Option Str
unfolding concat
textual_value (text value) = some value
textual_value (text_parts parts) = some (concat parts)
textual_value unsupported = none

-- the `fold` of `textual_byte_len`
unfoldable pub total_len : ℕ → List Str → ℕ
total_len total [] = total
total_len total (part ∷ parts) = total_len (saturating_add total (len part)) parts

unfoldable pub textual_byte_len : ToolOutput → Option ℕ
unfolding total_len
textual_byte_len (text value) = some (len value)
textual_byte_len (text_parts parts) = some (total_len 0 parts)
textual_byte_len unsupported = none

pub data HistoryItem : Type 0 where
  function_call custom_tool_call : Option Str → Option Str → HistoryItem
  tool_result : ToolResultKind → Option Str → ToolOutput → HistoryItem
  assistant_message reasoning other : HistoryItem

unfoldable pub is_model_action : HistoryItem → Bool
is_model_action (function_call _ _) = true
is_model_action (custom_tool_call _ _) = true
is_model_action assistant_message = true
is_model_action reasoning = true
is_model_action _ = false

unfoldable pub is_tool_result : HistoryItem → Bool
is_tool_result (tool_result _ _ _) = true
is_tool_result _ = false

-- the two `?` of the method
both : Option Str → Option Str → Option (Str × Str)
both (some call_id) (some name) = some (call_id, name)
both _ _ = none

unfoldable pub tool_call_identity : HistoryItem → Option (Str × Str)
unfolding both
tool_call_identity (function_call call_id name) = both call_id name
tool_call_identity (custom_tool_call call_id name) = both call_id name
tool_call_identity _ = none

-- `HistoryItem::tool_result`
unfoldable pub as_tool_result : HistoryItem → Option (ToolResultKind × Option Str × ToolOutput)
as_tool_result (tool_result kind call_id output) = some (kind, call_id, output)
as_tool_result _ = none

pub record AgingPolicy : Type 0 where
  pub enabled : Bool
  pub min_bytes : ℕ
  pub frontier : ℕ
  pub preview_code_units : ℕ

abbrev pub default_min_bytes : ℕ
default_min_bytes = 32 * 1024

abbrev pub default_frontier : ℕ
default_frontier = 4

abbrev pub default_preview_code_units : ℕ
default_preview_code_units = 1024

-- `AgingPolicy::default`
abbrev pub default_policy : AgingPolicy
default_policy = record {
  enabled = true;
  min_bytes = default_min_bytes;
  frontier = default_frontier;
  preview_code_units = default_preview_code_units;
}

total_len-eq :
    (total : ℕ) (parts : List Str)
    → total + len (concat parts) ≤ u64_max
    → total_len total parts ≡ total + len (concat parts)
unfolding total_len concat len
total_len-eq total [] h = omega arith
total_len-eq total (part ∷ parts) h =
    let split = len-append part (concat parts) in
    rw (saturating_add-eq total (len part) (omega (arith, split)))
      (omega (arith, split, total_len-eq (total + len part) parts (omega (arith, split))))

-- The byte length that is measured without joining the parts is the length of the joined text,
-- for every output that has a text whose length is a `usize`.
pub textual_byte_len-eq :
    (output : ToolOutput) (value : Str)
    → textual_value output ≡ some value
    → len value ≤ u64_max
    → textual_byte_len output ≡ some (len value)
unfolding textual_value textual_byte_len
textual_byte_len-eq (text v) value h fits = ground arith
textual_byte_len-eq (text_parts parts) value h fits =
    let e : concat parts ≡ value = cc in
    rw (← e) (ap some (total_len-eq 0 parts (omega (arith, ap len e)) ∙ omega arith))
textual_byte_len-eq unsupported value h fits = cc
