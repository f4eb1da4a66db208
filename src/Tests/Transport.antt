-- ===== src/Tests/Transport.antt =====
-- Runs of src/modules/transport: a request whose one tool result is aged, a report of usage, and
-- a coded body.
use mathlib.Core.Path.{subst}
use tokensaver.Prelude.{
  ℕ, ◌≤◌, ◌≡◌, refl, sym, ◌∙◌, true, false, none, some, List, [], ◌∷◌, ◌++◌, map, arith, leb,
  if◌then◌else◌, length, contains, Str, codes, len_utf8, len_utf16, len, str_eq, trim,
  to_ascii_lowercase, split, decimal,
}
use tokensaver.Aging.Model.{AgingPolicy}
use tokensaver.Aging.Engine.{
  age_tool_results, acted_after_map, protected_tool_result_indexes, lookup_name, call_name_map,
  tool_name,
}
use tokensaver.Transport.Compression.{
  Bytes, ContentEncoding, EncodingChain, gzip, zstd, ok, encode, decode, parse_chain,
  max_decoded_body_bytes,
}
use tokensaver.Transport.Compression.Laws.{decode-encode, Fits}
use tokensaver.Aging.Receipt.{build_receipt, safe_head, safe_tail}
use tokensaver.Transport.Request.Diagnostics.{apply_aging_diagnostics}
use tokensaver.Transport.Request.{
  aged, prepare_responses_body, is_responses_path, is_compaction_path, decode_root, rewrite_body,
}
use tokensaver.Transport.Request.Items.{
  normalize_history_item, replace_outputs, replacement_still_matches, same_text, text_field,
  input_of, has_previous_response_id, inspect_request,
}
use tokensaver.Transport.Request.Items.Matching.{age_tool_results-applies}
use tokensaver.Transport.Request.Delivery.{IsDelivered, prepare-IsDelivered}
use tokensaver.Transport.Request.Laws.{IsFaithful, prepare-IsFaithful}
use tokensaver.Transport.Usage.{
  ProviderUsageObservation, new, observe, finish, newline, observe_sse, observe_sse_line,
  max_sse_line_bytes, usage_from_value,
}
use tokensaver.Transport.Usage.Laws.{
  IsBounded, observe-append, observe-IsBounded, observe_sse-line, finish-cached-le,
}
use tokensaver.Tests.Document.{documents, documents_laws, plain_codecs, request_items}

abbrev no_hash : Str → Str
no_hash value = codes "00"

abbrev eager : AgingPolicy
eager = record { enabled = true; min_bytes = 100; frontier = 0; preview_code_units = 64 }

abbrev responses : Str
responses = codes "/v1/responses"

prepare_aged :
    (prepare_responses_body documents plain_codecs no_hash (1 ∷ []) none responses eager).outcome
    ≡ aged
unfolding prepare_responses_body is_responses_path str_eq decode_root parse_chain split
    to_ascii_lowercase trim decode is_compaction_path input_of age_tool_results
    normalize_history_item text_field same_text contains protected_tool_result_indexes len
    acted_after_map call_name_map lookup_name tool_name len_utf8 build_receipt decimal safe_head
    len_utf16 safe_tail replace_outputs replacement_still_matches rewrite_body encode
    has_previous_response_id apply_aging_diagnostics inspect_request
prepare_aged = refl

prepare-IsFaithful_example :
    IsFaithful
      (1 ∷ [])
      (prepare_responses_body documents plain_codecs no_hash (1 ∷ []) none responses eager)
prepare-IsFaithful_example =
    prepare-IsFaithful documents plain_codecs no_hash (1 ∷ []) none responses eager

age_tool_results-applies_example :
    (items : List documents.Value) × (replace_outputs documents
        (age_tool_results no_hash
          (map (normalize_history_item documents) request_items)
          eager).replacements
        request_items
      ≡ some items)
age_tool_results-applies_example =
    age_tool_results-applies documents documents_laws no_hash eager request_items refl

abbrev chain : List ContentEncoding
chain = gzip ∷ zstd ∷ []

plain_undoes :
    (encoding : ContentEncoding) (body encoded : Bytes)
    → plain_codecs.write encoding body ≡ some encoded
    → plain_codecs.read encoding encoded ≡ (body, false)
plain_undoes encoding body encoded h = cc

plain-Fits : Fits plain_codecs chain (7 ∷ 8 ∷ [])
plain-Fits =
    (omega arith, λ e h. let same : e ≡ 7 ∷ 8 ∷ [] = cc in (rw same (omega arith), λ _ _. tt))

plain_encoded : encode plain_codecs chain (7 ∷ 8 ∷ []) ≡ ok (7 ∷ 8 ∷ [])
unfolding encode
plain_encoded = refl

decode-encode_example : decode plain_codecs chain (7 ∷ 8 ∷ []) ≡ ok (7 ∷ 8 ∷ [])
decode-encode_example =
    decode-encode plain_codecs plain_undoes chain (7 ∷ 8 ∷ []) (7 ∷ 8 ∷ []) plain-Fits plain_encoded

plain-encode :
    (encodings : EncodingChain) (body : Bytes) → encode plain_codecs encodings body ≡ ok body
unfolding encode
plain-encode [] body = refl
plain-encode (_ ∷ encodings) body = plain-encode encodings body

small-Fits :
    (encodings : EncodingChain) (body : Bytes)
    → length body ≤ max_decoded_body_bytes
    → Fits plain_codecs encodings body
small-Fits [] body h = tt
small-Fits (_ ∷ encodings) body h = (
  h,
  λ e same.
      let here : body ≡ e = cc in
      subst (Fits plain_codecs encodings) here (small-Fits encodings body h),
)

sent-Fits :
    (encodings : EncodingChain) (plain : Bytes)
    → encode plain_codecs encodings plain
      ≡ ok
          (prepare_responses_body documents plain_codecs no_hash
            (1 ∷ [])
            none
            responses
            eager).bytes
    → Fits plain_codecs encodings plain
unfolding prepare_responses_body is_responses_path str_eq decode_root parse_chain split
    to_ascii_lowercase trim decode is_compaction_path input_of age_tool_results
    normalize_history_item text_field same_text contains protected_tool_result_indexes len
    acted_after_map call_name_map lookup_name tool_name len_utf8 build_receipt decimal safe_head
    len_utf16 safe_tail replace_outputs replacement_still_matches rewrite_body encode
    has_previous_response_id apply_aging_diagnostics inspect_request
sent-Fits encodings plain h =
    let sent : ok plain ≡ ok (3 ∷ []) = sym (plain-encode encodings plain) ∙ h in
    let same : plain ≡ 3 ∷ [] = cc in rw same (small-Fits encodings (3 ∷ []) (omega arith))

prepare-IsDelivered_example :
    IsDelivered documents plain_codecs no_hash
      (1 ∷ [])
      none
      eager
      (prepare_responses_body documents plain_codecs no_hash (1 ∷ []) none responses eager).bytes
prepare-IsDelivered_example =
    prepare-IsDelivered documents plain_codecs no_hash documents_laws plain_undoes (1 ∷ []) none
      responses eager sent-Fits prepare_aged

abbrev plain_line : List ℕ
plain_line = codes "data: x"

observe-append_example :
    observe documents (plain_line ++ newline ∷ []) (new true)
    ≡ observe documents (newline ∷ []) (observe documents plain_line (new true))
observe-append_example = observe-append documents plain_line (newline ∷ []) (new true)

new-IsBounded : IsBounded (new true)
unfolding new
new-IsBounded = (omega arith, omega arith)

observe-IsBounded_example : IsBounded (observe documents plain_line (new true))
observe-IsBounded_example = observe-IsBounded documents plain_line (new true) new-IsBounded

observe_sse-line_example : observe_sse documents (plain_line ++ newline ∷ []) (new true) ≡ (
    if leb (length plain_line) max_sse_line_bytes
    then observe_sse_line documents plain_line (new true)
    else new true)
unfolding new
observe_sse-line_example =
    observe_sse-line documents plain_line (new true)
      (refl, (refl, (refl, (refl, (refl, (refl, (refl, tt))))))) refl refl

abbrev reported : ProviderUsageObservation
reported = record { input_tokens = 12; cached_input_tokens = 12; output_tokens = 0 }

reported_run : finish documents (observe documents (2 ∷ []) (new false)) ≡ some reported
unfolding finish observe new usage_from_value str_eq
reported_run = refl

finish-cached-le_example : reported.cached_input_tokens ≤ reported.input_tokens
finish-cached-le_example = finish-cached-le documents false (2 ∷ []) reported reported_run
