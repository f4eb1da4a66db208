-- ===== src/Transport/Request/Diagnostics.antt =====
-- src/modules/transport/request.rs: the content-free counters of a request.
use tokensaver.Prelude.{
  ℕ, ◌+◌, max, Bool, false, Option, none, some, List, [], ◌∷◌, if◌then◌else◌, saturating_add, Str,
  codes, str_eq,
}
use tokensaver.Aging.Engine
use tokensaver.Aging.Engine.{
  protected_frontier, unsupported_output, at_or_below_threshold, unconsumed, receipt_not_smaller,
  skipped, AgingDecision, ToolResultEvaluation,
}

pub record RequestDiagnostics : Type 0 where
  pub has_previous_response_id : Bool
  pub previous_response_id_preserved : Bool
  pub input_items : ℕ
  pub function_calls : ℕ
  pub custom_tool_calls : ℕ
  pub function_call_outputs : ℕ
  pub custom_tool_call_outputs : ℕ
  pub assistant_messages : ℕ
  pub user_messages : ℕ
  pub system_messages : ℕ
  pub developer_messages : ℕ
  pub reasoning_items : ℕ
  pub textual_tool_result_bytes : ℕ
  pub largest_textual_tool_result_bytes : ℕ
  pub aging_pass_ran : Bool
  pub protected_frontier : ℕ
  pub unsupported_output : ℕ
  pub at_or_below_threshold : ℕ
  pub unconsumed : ℕ
  pub receipt_not_smaller : ℕ

abbrev pub default_diagnostics : RequestDiagnostics
default_diagnostics = record {
  has_previous_response_id = false;
  previous_response_id_preserved = false;
  input_items = 0;
  function_calls = 0;
  custom_tool_calls = 0;
  function_call_outputs = 0;
  custom_tool_call_outputs = 0;
  assistant_messages = 0;
  user_messages = 0;
  system_messages = 0;
  developer_messages = 0;
  reasoning_items = 0;
  textual_tool_result_bytes = 0;
  largest_textual_tool_result_bytes = 0;
  aging_pass_ran = false;
  protected_frontier = 0;
  unsupported_output = 0;
  at_or_below_threshold = 0;
  unconsumed = 0;
  receipt_not_smaller = 0;
}

-- the `role` of a message
unfoldable pub count_role : Option Str → RequestDiagnostics → RequestDiagnostics
count_role none d = d
count_role (some role) d =
    if str_eq role (codes "assistant")
    then record d { assistant_messages = d.assistant_messages + 1 }
    else if str_eq role (codes "user")
    then record d { user_messages = d.user_messages + 1 }
    else if str_eq role (codes "system")
    then record d { system_messages = d.system_messages + 1 }
    else if str_eq role (codes "developer")
    then record d { developer_messages = d.developer_messages + 1 }
    else d

unfoldable pub observe_size : Option ℕ → RequestDiagnostics → RequestDiagnostics
observe_size none d = d
observe_size (some bytes) d = record d {
  textual_tool_result_bytes = saturating_add d.textual_tool_result_bytes bytes;
  largest_textual_tool_result_bytes = max d.largest_textual_tool_result_bytes bytes;
}

count_decision : AgingDecision → RequestDiagnostics → RequestDiagnostics
count_decision Engine.aged d = d
count_decision (skipped protected_frontier) d = record d {
  protected_frontier = d.protected_frontier + 1;
}
count_decision (skipped unsupported_output) d = record d {
  unsupported_output = d.unsupported_output + 1;
}
count_decision (skipped at_or_below_threshold) d = record d {
  at_or_below_threshold = d.at_or_below_threshold + 1;
}
count_decision (skipped unconsumed) d = record d { unconsumed = d.unconsumed + 1 }
count_decision (skipped receipt_not_smaller) d = record d {
  receipt_not_smaller = d.receipt_not_smaller + 1;
}

-- `apply_aging_diagnostics`, over the evaluations
unfoldable pub apply_aging_diagnostics :
    List ToolResultEvaluation → RequestDiagnostics → RequestDiagnostics
unfolding count_decision
apply_aging_diagnostics [] d = d
apply_aging_diagnostics (e ∷ es) d = apply_aging_diagnostics es (count_decision e.decision d)
