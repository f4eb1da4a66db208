-- ===== src/Transport/Request/Savings.antt =====
-- src/modules/transport/request.rs: what a prepared body reports of its savings.
use tokensaver.Prelude.{
  ◌+◌, ◌≡◌, refl, ap, ◌∙◌, ◌⊎◌, inl, inr, Bool, true, false, not, ◌&&◌, Option, none, some, List,
  [], ◌∷◌, map, arith, if◌then◌else◌, Bool-cases, length, Str,
}
use tokensaver.Aging.Model.{AgingPolicy}
use tokensaver.Aging.Engine.{AgingResult, AgedReplacement, age_tool_results}
use tokensaver.Aging.Engine.Stats.{Counts, sum_before, age_tool_results-Counts}
use tokensaver.Transport.Json.{Json}
use tokensaver.Transport.Compression.{Bytes, Codecs, EncodingChain}
use tokensaver.Transport.Request.Diagnostics.{RequestDiagnostics, apply_aging_diagnostics}
use tokensaver.Transport.Request.Items.{
  input_of, inspect_request, normalize_history_item, replace_outputs,
}
use tokensaver.Transport.Request.{
  PreparedRequestBody, aged, decode_root, is_responses_path, is_compaction_path, no_replacement,
  is_none, send_rewritten, apply_aging, evaluate_root, prepare_root, prepare_responses_body,
}

-- Only a body that was rewritten reports a result that was compacted, or bytes that were saved.
abbrev pub IsHonest : PreparedRequestBody → Type 0
IsHonest p =
    (p.outcome ≡ aged)
    ⊎ ((p.aging.stats.tool_results_aged ≡ 0) × (p.aging.stats.tool_result_bytes_saved ≡ 0))

IsHonest-if :
    (b : Bool) (p q : PreparedRequestBody) → IsHonest p → IsHonest q → IsHonest (if b then p else q)
IsHonest-if true p q h k = h
IsHonest-if false p q h k = k

is_none-true : (rs : List AgedReplacement) → is_none rs ≡ true → rs ≡ []
unfolding is_none
is_none-true [] h = refl
is_none-true (r ∷ rs) h = cc

-- a pass without replacements saves nothing
idle-Counts :
    (r : AgingResult)
    → Counts r
    → r.stats.tool_result_bytes_saved + r.stats.tool_result_bytes_after
      ≡ r.stats.tool_result_bytes_before
    → r.replacements ≡ []
    → (r.stats.tool_results_aged ≡ 0) × (r.stats.tool_result_bytes_saved ≡ 0)
idle-Counts r counts saved none_left =
    let aged_ones : r.stats.tool_results_aged ≡ 0 = counts.aged_ones ∙ ap length none_left in
    let before : r.stats.tool_result_bytes_before ≡ 0 =
      counts.before_sum ∙ ap sum_before none_left in
    (aged_ones, omega arith)

module _ (json : Json) (codecs : Codecs) (sha256_hex : Str → Str) where
  open json use {Value}

  send_rewritten-IsHonest :
      (body : Bytes) (encodings : EncodingChain) (root : Value) (aging : AgingResult)
      (diagnostics : RequestDiagnostics) (items : Option (List Value))
      → IsHonest (send_rewritten json codecs sha256_hex body encodings root aging diagnostics items)
  unfolding send_rewritten
  send_rewritten-IsHonest body encodings root aging diagnostics none = inr (refl, refl)
  send_rewritten-IsHonest body encodings root aging diagnostics (some items) = ground arith

  apply_aging-IsHonest :
      (body : Bytes) (encodings : EncodingChain) (root : Value) (input : List Value)
      (aging : AgingResult) (diagnostics : RequestDiagnostics)
      → Counts aging
      → aging.stats.tool_result_bytes_saved + aging.stats.tool_result_bytes_after
        ≡ aging.stats.tool_result_bytes_before
      → IsHonest (apply_aging json codecs sha256_hex body encodings root input aging diagnostics)
  unfolding apply_aging no_replacement
  apply_aging-IsHonest body encodings root input aging diagnostics counts saved =
      elim (Bool-cases (is_none aging.replacements)) [
        | inl nothing ↦
            rw nothing
              (inr (idle-Counts aging counts saved (is_none-true aging.replacements nothing)))
        | inr some_aged ↦ rw some_aged (
            send_rewritten-IsHonest body encodings root aging diagnostics
              (replace_outputs json aging.replacements input))
      ]

  evaluate_root-IsHonest :
      (body : Bytes) (policy : AgingPolicy) (encodings : EncodingChain) (root : Value)
      (diagnostics : RequestDiagnostics) (input : Option (List Value))
      → IsHonest (evaluate_root json codecs sha256_hex body policy encodings root diagnostics input)
  unfolding evaluate_root
  evaluate_root-IsHonest body policy encodings root diagnostics none = inr (refl, refl)
  evaluate_root-IsHonest body policy encodings root diagnostics (some input) =
      let history = map (normalize_history_item json) input in
      let (counts, saved) = age_tool_results-Counts sha256_hex history policy in
      apply_aging-IsHonest body encodings root input (age_tool_results sha256_hex history policy)
        (apply_aging_diagnostics (age_tool_results sha256_hex history policy).evaluations
          (record diagnostics { aging_pass_ran = true }))
        counts saved

  prepare_root-IsHonest :
      (body : Bytes) (is_compaction : Bool) (policy : AgingPolicy)
      (read : Option (EncodingChain × Value))
      → IsHonest (prepare_root json codecs sha256_hex body is_compaction policy read)
  unfolding prepare_root
  prepare_root-IsHonest body is_compaction policy none = inr (refl, refl)
  prepare_root-IsHonest body is_compaction policy (some (encodings, root)) =
      IsHonest-if is_compaction _ _ (inr (refl, refl)) (
        IsHonest-if (not policy.enabled) _ _ (inr (refl, refl)) (
          evaluate_root-IsHonest body policy encodings root
            (record (inspect_request json root) {
              previous_response_id_preserved = (inspect_request json root).has_previous_response_id;
            })
            (input_of json root)))

  pub prepare-IsHonest :
      (body : Bytes) (encoding : Option Str) (path : Str) (policy : AgingPolicy)
      → IsHonest (prepare_responses_body json codecs sha256_hex body encoding path policy)
  unfolding prepare_responses_body
  prepare-IsHonest body encoding path policy =
      IsHonest-if (not (is_responses_path path) && not (is_compaction_path path)) _ _
        (inr (refl, refl))
        (prepare_root-IsHonest body (is_compaction_path path) policy
          (decode_root json codecs sha256_hex body encoding))
