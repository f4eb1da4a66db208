-- ===== src/Transport/Request.antt =====
-- src/modules/transport/request.rs: what becomes of the body of one request. JSON values and
-- content codecs are those of the crates that the program links (Json, Codecs).
pub mod Delivery
pub mod Diagnostics
pub mod Items
pub mod Laws
pub mod Savings
use tokensaver.Prelude.{
  Bool, true, false, not, ◌&&◌, ◌||◌, Option, none, some, List, [], ◌∷◌, map, ltb, if◌then◌else◌,
  Str, codes, str_eq,
}
use tokensaver.Aging.Model.{AgingPolicy}
use tokensaver.Aging.Engine.{AgingResult, AgedReplacement, default_result, age_tool_results}
use tokensaver.Transport.Json.{Json}
use tokensaver.Transport.Compression.{
  Bytes, Codecs, Decoded, EncodingChain, ok, err, parse_chain, decode, encode,
}
use Diagnostics.{RequestDiagnostics, apply_aging_diagnostics}
use Items.{
  input_of, has_previous_response_id, normalize_history_item, inspect_request, replace_outputs,
}

pub data PreparationOutcome : Type 0 where
  disabled compaction_bypass native_passthrough : PreparationOutcome
  evaluated_no_eligible_result evaluated_no_savings aged fail_original : PreparationOutcome

pub record PreparedRequestBody : Type 0 where
  pub bytes : Bytes
  pub outcome : PreparationOutcome
  pub aging : AgingResult
  pub diagnostics : Option RequestDiagnostics
  pub body_changed : Bool

abbrev pub original_with_diagnostics :
    Bytes → PreparationOutcome → Option RequestDiagnostics → PreparedRequestBody
original_with_diagnostics bytes outcome diagnostics = record {
  bytes = bytes;
  outcome = outcome;
  aging = default_result;
  diagnostics = diagnostics;
  body_changed = false;
}

-- `PreparedRequestBody::original`
abbrev pub original : Bytes → PreparationOutcome → PreparedRequestBody
original bytes outcome = original_with_diagnostics bytes outcome none

unfoldable pub is_responses_path : Str → Bool
is_responses_path path = str_eq path (codes "/responses") || str_eq path (codes "/v1/responses")

unfoldable pub is_compaction_path : Str → Bool
is_compaction_path path =
    str_eq path (codes "/responses/compact") || str_eq path (codes "/v1/responses/compact")

-- the outcome where nothing is replaced
no_replacement : Bytes → AgingResult → RequestDiagnostics → PreparedRequestBody
no_replacement encoded_body aging diagnostics = record {
  bytes = encoded_body;
  outcome =
      if ltb 0 aging.stats.tool_results_eligible
      then evaluated_no_savings
      else evaluated_no_eligible_result;
  aging = aging;
  diagnostics = some diagnostics;
  body_changed = false;
}

is_none : List AgedReplacement → Bool
is_none [] = true
is_none (_ ∷ _) = false

unreadable_outcome : Bool → AgingPolicy → PreparationOutcome
unreadable_outcome is_compaction policy =
    if is_compaction
    then compaction_bypass
    else if not policy.enabled
    then disabled
    else fail_original

-- `==` of `bool`
bool_eq : Bool → Bool → Bool
bool_eq true b = b
bool_eq false b = not b

module _ (json : Json) (codecs : Codecs) (sha256_hex : Str → Str) where
  open json use {Value, from_slice, to_vec, array, insert}

  parse_body : EncodingChain → Decoded Bytes → Option (EncodingChain × Value)
  parse_body encodings (err _) = none
  parse_body encodings (ok decoded) = elim (from_slice decoded) [
    | none ↦ none
    | some root ↦ some (encodings, root)
  ]

  unfoldable pub decode_root : Bytes → Option Str → Option (EncodingChain × Value)
  unfolding parse_body
  decode_root encoded_body content_encoding = elim (parse_chain content_encoding) [
    | err _ ↦ none
    | ok encodings ↦ parse_body encodings (decode codecs encodings encoded_body)
  ]

  -- from the rewritten root to the body that is sent
  reencode : EncodingChain → Option Bytes → Option Bytes
  reencode encodings none = none
  reencode encodings (some rewritten) = elim (encode codecs encodings rewritten) [
    | err _ ↦ none
    | ok bytes ↦ some bytes
  ]

  unfoldable pub rewrite_body : EncodingChain → Value → List Value → Option Bytes
  unfolding reencode
  rewrite_body encodings root items =
      let root' = insert (codes "input") (array items) root in reencode encodings (to_vec root')

  -- the end of the function: check the chaining invariant, serialize, encode
  send_rewritten :
      Bytes
      → EncodingChain
      → Value
      → AgingResult
      → RequestDiagnostics
      → Option (List Value)
      → PreparedRequestBody
  send_rewritten encoded_body encodings root aging diagnostics none =
      original_with_diagnostics encoded_body fail_original (some diagnostics)
  send_rewritten encoded_body encodings root aging diagnostics (some items) =
      let root' = insert (codes "input") (array items) root in
      let chained = has_previous_response_id json root' in
      if not (bool_eq diagnostics.has_previous_response_id chained)
      then original_with_diagnostics encoded_body fail_original (some diagnostics)
      else elim (rewrite_body encodings root items) [
        | none ↦ original_with_diagnostics encoded_body fail_original (some diagnostics)
        | some reencoded ↦ record {
          bytes = reencoded;
          outcome = aged;
          aging = aging;
          diagnostics = some diagnostics;
          body_changed = true;
        }
      ]

  apply_aging :
      Bytes
      → EncodingChain
      → Value
      → List Value
      → AgingResult
      → RequestDiagnostics
      → PreparedRequestBody
  unfolding send_rewritten no_replacement is_none bool_eq
  apply_aging encoded_body encodings root input aging diagnostics =
      if is_none aging.replacements
      then no_replacement encoded_body aging diagnostics
      else send_rewritten encoded_body encodings root aging diagnostics
          (replace_outputs json aging.replacements input)

  -- an enabled policy on a Responses request whose root was read
  evaluate_root :
      Bytes
      → AgingPolicy
      → EncodingChain
      → Value
      → RequestDiagnostics
      → Option (List Value)
      → PreparedRequestBody
  unfolding apply_aging
  evaluate_root encoded_body policy encodings root diagnostics none = record {
    bytes = encoded_body;
    outcome = evaluated_no_eligible_result;
    aging = default_result;
    diagnostics = some (record diagnostics { aging_pass_ran = true });
    body_changed = false;
  }
  evaluate_root encoded_body policy encodings root diagnostics (some input) =
      let aging = age_tool_results sha256_hex (map (normalize_history_item json) input) policy in
      apply_aging encoded_body encodings root input aging
        (apply_aging_diagnostics aging.evaluations (record diagnostics { aging_pass_ran = true }))

  prepare_root : Bytes → Bool → AgingPolicy → Option (EncodingChain × Value) → PreparedRequestBody
  unfolding evaluate_root unreadable_outcome
  prepare_root encoded_body is_compaction policy none =
      original encoded_body (unreadable_outcome is_compaction policy)
  prepare_root encoded_body is_compaction policy (some (encodings, root)) =
      let inspected = inspect_request json root in
      let diagnostics : RequestDiagnostics = record inspected {
        previous_response_id_preserved = inspected.has_previous_response_id;
      } in
      if is_compaction
      then original_with_diagnostics encoded_body compaction_bypass (some inspected)
      else if not policy.enabled
      then original_with_diagnostics encoded_body disabled (some diagnostics)
      else evaluate_root encoded_body policy encodings root diagnostics (input_of json root)

  unfoldable pub prepare_responses_body :
      Bytes → Option Str → Str → AgingPolicy → PreparedRequestBody
  unfolding prepare_root
  prepare_responses_body encoded_body content_encoding upstream_path policy =
      if not (is_responses_path upstream_path) && not (is_compaction_path upstream_path)
      then original encoded_body native_passthrough
      else prepare_root encoded_body (is_compaction_path upstream_path) policy
          (decode_root encoded_body content_encoding)
