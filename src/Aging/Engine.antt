-- ===== src/Aging/Engine.antt =====
-- src/modules/aging/engine.rs: which tool results of a history are replaced by receipts.
-- `sha256_hex` is the digest of the crate sha2.
pub mod Spec
pub mod Tables
pub mod Refines
pub mod Sound
pub mod Stats
use tokensaver.Prelude.{
  ℕ, suc, ◌+◌, ◌-◌, max, Bool, true, false, not, ◌||◌, Option, none, some, List, [], ◌∷◌, ◌++◌,
  reverse, leb, ◌==◌, if◌then◌else◌, get_or, take, contains, Str, len, str_eq,
}
use tokensaver.Aging.Model.{
  ToolResultKind, ToolOutput, HistoryItem, AgingPolicy, textual_value, textual_byte_len,
  is_model_action, is_tool_result, tool_call_identity, as_tool_result,
}
use tokensaver.Aging.Receipt.{build_receipt}

pub data AgingSkipReason : Type 0 where
  protected_frontier unsupported_output at_or_below_threshold unconsumed : AgingSkipReason
  receipt_not_smaller : AgingSkipReason

pub data AgingDecision : Type 0 where
  aged : AgingDecision
  skipped : AgingSkipReason → AgingDecision

pub record ToolResultEvaluation : Type 0 where
  pub item_index : ℕ
  pub source_kind : ToolResultKind
  pub source_call_id : Option Str
  pub decision : AgingDecision
  pub source_bytes : Option ℕ
  pub receipt_bytes : Option ℕ

pub record AgingStats : Type 0 where
  pub tool_results_evaluated : ℕ
  pub tool_results_eligible : ℕ
  pub tool_results_aged : ℕ
  pub largest_tool_result_bytes : ℕ
  pub tool_result_bytes_before : ℕ
  pub tool_result_bytes_after : ℕ
  pub tool_result_bytes_saved : ℕ

pub record AgedReplacement : Type 0 where
  pub item_index : ℕ
  pub source_kind : ToolResultKind
  pub source_call_id : Option Str
  pub receipt : Str
  pub bytes_before : ℕ
  pub bytes_after : ℕ

pub record AgingResult : Type 0 where
  pub replacements : List AgedReplacement
  pub evaluations : List ToolResultEvaluation
  pub stats : AgingStats

abbrev pub default_stats : AgingStats
default_stats = record {
  tool_results_evaluated = 0;
  tool_results_eligible = 0;
  tool_results_aged = 0;
  largest_tool_result_bytes = 0;
  tool_result_bytes_before = 0;
  tool_result_bytes_after = 0;
  tool_result_bytes_saved = 0;
}

-- `AgingResult::default`
abbrev pub default_result : AgingResult
default_result = record { replacements = []; evaluations = []; stats = default_stats }

-- `acted_after_map`: the loop runs from the last index to the first, so the flags of the later
-- items and `later_model_action` come from the call on the rest.
acted_after_loop : List HistoryItem → List Bool × Bool
acted_after_loop [] = ([], false)
acted_after_loop (item ∷ later) =
    let (acted_after, later_model_action) = acted_after_loop later in
    (later_model_action ∷ acted_after, if is_model_action item then true else later_model_action)

unfoldable pub acted_after_map : List HistoryItem → List Bool
unfolding acted_after_loop is_model_action
acted_after_map input = (acted_after_loop input).0

-- `enumerate().filter_map(..)`, from an index on
tool_result_indexes : ℕ → List HistoryItem → List ℕ
tool_result_indexes index [] = []
tool_result_indexes index (item ∷ items) =
    let rest = tool_result_indexes (suc index) items in
    if is_tool_result item then index ∷ rest else rest

unfoldable pub protected_tool_result_indexes : List HistoryItem → ℕ → List ℕ
unfolding tool_result_indexes is_tool_result
protected_tool_result_indexes input frontier =
    if frontier == 0 then [] else take frontier (reverse (tool_result_indexes 0 input))

-- `HashMap<&str, &str>` as an association list: a later `insert` of a key hides an earlier one.
abbrev pub CallNames : Type 0
CallNames = List (Str × Str)

unfoldable pub lookup_name : Str → CallNames → Option Str
lookup_name id [] = none
lookup_name id ((call_id, name) ∷ names) =
    if str_eq call_id id then some name else lookup_name id names

call_name_step : CallNames → Option (Str × Str) → CallNames
call_name_step names none = names
call_name_step names (some identity) = identity ∷ names

call_name_loop : CallNames → List HistoryItem → CallNames
call_name_loop names [] = names
call_name_loop names (item ∷ items) =
    call_name_loop (call_name_step names (tool_call_identity item)) items

unfoldable pub call_name_map : List HistoryItem → CallNames
unfolding call_name_loop call_name_step tool_call_identity
call_name_map input = call_name_loop [] input

-- what the loop reads and does not change
pub record Pass : Type 0 where
  pub policy : AgingPolicy
  pub acted_after : List Bool
  pub protected_indexes : List ℕ
  pub call_names : CallNames

-- `call_id.and_then(|id| call_names.get(id).copied())`
unfoldable pub tool_name : CallNames → Option Str → Option Str
tool_name names none = none
tool_name names (some id) = lookup_name id names

push_evaluation : AgingResult → ToolResultEvaluation → AgingResult
push_evaluation state e = record state { evaluations = state.evaluations ++ e ∷ [] }

-- the counters at the head of the loop's body
observe_size : Option ℕ → AgingStats → AgingStats
observe_size none stats = record stats { tool_results_evaluated = stats.tool_results_evaluated + 1 }
observe_size (some bytes) stats = record stats {
  tool_results_evaluated = stats.tool_results_evaluated + 1;
  largest_tool_result_bytes = max stats.largest_tool_result_bytes bytes;
}

-- the closure `skipped`
skip : ℕ → ToolResultKind → Option Str → Option ℕ → AgingSkipReason → AgingResult → AgingResult
unfolding push_evaluation
skip index kind call_id source_bytes reason state = push_evaluation state (record {
  item_index = index;
  source_kind = kind;
  source_call_id = call_id;
  decision = skipped reason;
  source_bytes = source_bytes;
  receipt_bytes = none;
})

count_eligible : AgingResult → AgingResult
count_eligible state = record state {
  stats = record state.stats { tool_results_eligible = state.stats.tool_results_eligible + 1 };
}

-- the comparison of the receipt with its source, and what a replacement records
replace_if_smaller : ℕ → ToolResultKind → Option Str → ℕ → Str → AgingResult → AgingResult
unfolding push_evaluation
replace_if_smaller index kind call_id before receipt state =
    let after = len receipt in
    if leb before after
    then push_evaluation state (record {
      item_index = index;
      source_kind = kind;
      source_call_id = call_id;
      decision = skipped receipt_not_smaller;
      source_bytes = some before;
      receipt_bytes = some after;
    })
    else record {
      replacements =
          state.replacements
          ++ record {
            item_index = index;
            source_kind = kind;
            source_call_id = call_id;
            receipt = receipt;
            bytes_before = before;
            bytes_after = after;
          }
            ∷ [];
      evaluations =
          state.evaluations
          ++ record {
            item_index = index;
            source_kind = kind;
            source_call_id = call_id;
            decision = aged;
            source_bytes = some before;
            receipt_bytes = some after;
          }
            ∷ [];
      stats = record state.stats {
        tool_results_aged = state.stats.tool_results_aged + 1;
        tool_result_bytes_before = state.stats.tool_result_bytes_before + before;
        tool_result_bytes_after = state.stats.tool_result_bytes_after + after;
      };
    }

-- the statement after the loop
finish : AgingResult → AgingResult
finish state = record state {
  stats = record state.stats {
    tool_result_bytes_saved =
        state.stats.tool_result_bytes_before - state.stats.tool_result_bytes_after;
  };
}

module _ (sha256_hex : Str → Str) where
  -- the tests of the loop's body, in order
  age_sized :
      Pass → ℕ → ToolResultKind → Option Str → ToolOutput → Option ℕ → AgingResult → AgingResult
  unfolding skip
  age_sized pass index kind call_id output none state =
      if contains pass.protected_indexes index
      then skip index kind call_id none protected_frontier state
      else skip index kind call_id none unsupported_output state
  age_sized pass index kind call_id output (some before) state =
      if contains pass.protected_indexes index
      then skip index kind call_id (some before) protected_frontier state
      else if leb before pass.policy.min_bytes
      then skip index kind call_id (some before) at_or_below_threshold state
      else if not (get_or pass.acted_after index false)
      then skip index kind call_id (some before) unconsumed state
      else elim (textual_value output) [
        | none ↦ skip index kind call_id (some before) unsupported_output (count_eligible state)
        | some text ↦
            replace_if_smaller index kind call_id before
              (build_receipt sha256_hex text (tool_name pass.call_names call_id)
                pass.policy.preview_code_units)
              (count_eligible state)
      ]

  -- one round of the loop: only tool results are looked at
  age_item : Pass → ℕ → HistoryItem → AgingResult → AgingResult
  age_item pass index item state = elim (as_tool_result item) [
    | none ↦ state
    | some (kind, call_id, output) ↦
        age_sized pass index kind call_id output (textual_byte_len output)
          (record state { stats = observe_size (textual_byte_len output) state.stats })
  ]

  age_loop : Pass → ℕ → List HistoryItem → AgingResult → AgingResult
  age_loop pass index [] state = state
  age_loop pass index (item ∷ items) state =
      age_loop pass (suc index) items (age_item pass index item state)

abbrev pub pass_of : List HistoryItem → AgingPolicy → Pass
pass_of input policy = record {
  policy = policy;
  acted_after = acted_after_map input;
  protected_indexes = protected_tool_result_indexes input policy.frontier;
  call_names = call_name_map input;
}

is_empty : List HistoryItem → Bool
is_empty [] = true
is_empty (_ ∷ _) = false

unfoldable pub age_tool_results : (Str → Str) → List HistoryItem → AgingPolicy → AgingResult
unfolding age_loop age_item age_sized finish replace_if_smaller count_eligible observe_size skip
    is_empty textual_value textual_byte_len as_tool_result
age_tool_results sha256_hex input policy =
    if not policy.enabled || is_empty input
    then default_result
    else finish (age_loop sha256_hex (pass_of input policy) 0 input default_result)
