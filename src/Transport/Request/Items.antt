-- ===== src/Transport/Request/Items.antt =====
-- src/modules/transport/request.rs: the items of a request, read from JSON, counted and rewritten.
pub mod Matching
pub mod Written
use tokensaver.Prelude.{
  ◌+◌, Bool, true, false, not, ◌&&◌, ◌||◌, Option, none, some, List, [], ◌∷◌, ◌++◌, if◌then◌else◌,
  length, get_elem?, set, Str, codes, str_eq,
}
use tokensaver.Aging.Model.{
  ToolResultKind, ToolOutput, HistoryItem, function, custom, text, text_parts, unsupported,
  function_call, custom_tool_call, tool_result, assistant_message, reasoning, other,
  textual_byte_len,
}
use tokensaver.Aging.Engine.{AgedReplacement}
use tokensaver.Transport.Json.{Json}
use tokensaver.Transport.Request.Diagnostics.{
  RequestDiagnostics, default_diagnostics, count_role, observe_size,
}

-- the `type` of an item, as far as the program tells types apart
pub data ItemType : Type 0 where
  call custom_call call_output custom_call_output reasoning_item message unknown : ItemType

unfoldable pub item_type : Option Str → ItemType
item_type none = unknown
item_type (some name) =
    if str_eq name (codes "function_call")
    then call
    else if str_eq name (codes "custom_tool_call")
    then custom_call
    else if str_eq name (codes "function_call_output")
    then call_output
    else if str_eq name (codes "custom_tool_call_output")
    then custom_call_output
    else if str_eq name (codes "reasoning")
    then reasoning_item
    else if str_eq name (codes "message")
    then message
    else unknown

-- a comparison of two optional texts
unfoldable pub same_text : Option Str → Option Str → Bool
same_text none none = true
same_text (some a) (some b) = str_eq a b
same_text _ _ = false

type_of_kind : ToolResultKind → Str
type_of_kind function = codes "function_call_output"
type_of_kind custom = codes "custom_tool_call_output"

module _ (json : Json) where
  open json use {Value, get, is_object, is_null, as_array, as_str, string, array, insert}

  -- `object.get(key).and_then(Value::as_str)`
  unfoldable pub text_field : Str → Value → Option Str
  text_field key value = elim (get key value) [ none ↦ none | some member ↦ as_str member ]

  -- `root.get("input").and_then(Value::as_array)`
  unfoldable pub input_of : Value → Option (List Value)
  input_of root = elim (get (codes "input") root) [ none ↦ none | some member ↦ as_array member ]

  unfoldable pub has_previous_response_id : Value → Bool
  has_previous_response_id root = elim (get (codes "previous_response_id") root) [
    | none ↦ false
    | some value ↦ not (is_null value)
  ]

  -- one part of an output: its text, if it is a textual part
  part_text : Value → Option Str
  part_text part =
      if not (is_object part)
      then none
      else if same_text (text_field (codes "type") part) (some (codes "input_text"))
          || same_text (text_field (codes "type") part) (some (codes "text"))
      then text_field (codes "text") part
      else none

  -- the loop of `normalize_output`
  parts_text : List Str → List Value → ToolOutput
  parts_text texts [] = text_parts texts
  parts_text texts (part ∷ parts) =
      let found = part_text part in
      let more = λ (value : Str). parts_text (texts ++ value ∷ []) parts in
      elim found [ none ↦ unsupported | some value ↦ more value ]

  normalize_array : Option (List Value) → ToolOutput
  normalize_array none = unsupported
  normalize_array (some parts) = parts_text [] parts

  unfoldable pub normalize_output : Option Value → ToolOutput
  unfolding normalize_array parts_text part_text
  normalize_output none = unsupported
  normalize_output (some output) = elim (as_str output) [
    | some value ↦ text value
    | none ↦ normalize_array (as_array output)
  ]

  normalize_as : ItemType → Value → HistoryItem
  normalize_as call item =
      function_call (text_field (codes "call_id") item) (text_field (codes "name") item)
  normalize_as custom_call item =
      custom_tool_call (text_field (codes "call_id") item) (text_field (codes "name") item)
  normalize_as call_output item =
      tool_result function (text_field (codes "call_id") item)
        (normalize_output (get (codes "output") item))
  normalize_as custom_call_output item =
      tool_result custom (text_field (codes "call_id") item)
        (normalize_output (get (codes "output") item))
  normalize_as reasoning_item item = reasoning
  normalize_as message item =
      if same_text (text_field (codes "role") item) (some (codes "assistant"))
      then assistant_message
      else other
  normalize_as unknown item = other

  unfoldable pub normalize_history_item : Value → HistoryItem
  unfolding normalize_as normalize_output item_type
  normalize_history_item item =
      if not (is_object item)
      then other
      else normalize_as (item_type (text_field (codes "type") item)) item

  observe_tool_output : Option Value → RequestDiagnostics → RequestDiagnostics
  unfolding observe_size
  observe_tool_output output d = observe_size (textual_byte_len (normalize_output output)) d

  inspect_as : ItemType → Value → RequestDiagnostics → RequestDiagnostics
  unfolding observe_tool_output count_role
  inspect_as call item d = record d { function_calls = d.function_calls + 1 }
  inspect_as custom_call item d = record d { custom_tool_calls = d.custom_tool_calls + 1 }
  inspect_as call_output item d =
      observe_tool_output (get (codes "output") item)
        (record d { function_call_outputs = d.function_call_outputs + 1 })
  inspect_as custom_call_output item d =
      observe_tool_output (get (codes "output") item)
        (record d { custom_tool_call_outputs = d.custom_tool_call_outputs + 1 })
  inspect_as reasoning_item item d = record d { reasoning_items = d.reasoning_items + 1 }
  inspect_as message item d = count_role (text_field (codes "role") item) d
  inspect_as unknown item d = d

  inspect_loop : List Value → RequestDiagnostics → RequestDiagnostics
  unfolding inspect_as
  inspect_loop [] d = d
  inspect_loop (item ∷ items) d =
      inspect_loop items (
        if is_object item
        then inspect_as (item_type (text_field (codes "type") item)) item d
        else d)

  unfoldable pub inspect_request : Value → RequestDiagnostics
  unfolding inspect_loop
  inspect_request root =
      let start : RequestDiagnostics = record default_diagnostics {
        has_previous_response_id = has_previous_response_id root;
      } in
      elim (input_of root) [
        | none ↦ start
        | some input ↦ inspect_loop input (record start { input_items = length input })
      ]

  unfoldable pub replacement_still_matches : Value → ToolResultKind → Option Str → Bool
  unfolding type_of_kind
  replacement_still_matches item expected_kind expected_call_id =
      is_object item
      && same_text (text_field (codes "type") item) (some (type_of_kind expected_kind))
      && same_text (text_field (codes "call_id") item) expected_call_id

  -- one round of the loop over the replacements; `none` is each of its early returns
  replace_output : AgedReplacement → List Value → Option (List Value)
  replace_output replacement items = elim (get_elem? items replacement.item_index) [
    | none ↦ none
    | some item ↦
        if replacement_still_matches item replacement.source_kind replacement.source_call_id
        then some (
            set items replacement.item_index
              (insert (codes "output") (string replacement.receipt) item))
        else none
  ]

  unfoldable pub replace_outputs : List AgedReplacement → List Value → Option (List Value)
  unfolding replace_output
  replace_outputs [] items = some items
  replace_outputs (replacement ∷ rest) items = elim (replace_output replacement items) [
    | none ↦ none
    | some items' ↦ replace_outputs rest items'
  ]
