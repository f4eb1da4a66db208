-- ===== src/Transport/Request/Laws.antt =====
-- src/modules/transport/request.rs: when a request body is rewritten, and what is sent then.
use tokensaver.Prelude.{
  ◌≡◌, refl, ◌≢◌, ◌⊎◌, inl, inr, Bool, true, false, not, ◌&&◌, Option, none, some, List, map, arith,
  if◌then◌else◌, Bool-cases, Str,
}
use tokensaver.Aging.Model.{AgingPolicy}
use tokensaver.Aging.Engine.{AgingResult, age_tool_results}
use tokensaver.Transport.Json.{Json}
use tokensaver.Transport.Compression.{Bytes, Codecs, EncodingChain}
use tokensaver.Transport.Request.Diagnostics.{RequestDiagnostics, apply_aging_diagnostics}
use tokensaver.Transport.Request.Items.{
  input_of, inspect_request, normalize_history_item, replace_outputs,
}
use tokensaver.Transport.Request.{
  PreparedRequestBody, aged, fail_original, disabled, no_replacement, send_rewritten, apply_aging,
  evaluate_root, prepare_root, prepare_responses_body, is_compaction_path, is_none,
  unreadable_outcome, decode_root, rewrite_body, is_responses_path,
}

-- A body is rewritten under the outcome `aged`, and sent as it came under any other.
abbrev pub IsFaithful : Bytes → PreparedRequestBody → Type 0
IsFaithful body p =
    ((p.outcome ≡ aged) × (p.body_changed ≡ true))
    ⊎ ((p.outcome ≢ aged) × (p.bytes ≡ body) × (p.body_changed ≡ false))

IsFaithful-if :
    (body : Bytes) (b : Bool) (p q : PreparedRequestBody)
    → IsFaithful body p
    → IsFaithful body q
    → IsFaithful body (if b then p else q)
IsFaithful-if body true p q h k = h
IsFaithful-if body false p q h k = k

not-false : (b : Bool) → not b ≡ false → b ≡ true
not-false true h = refl
not-false false h = cc

unreadable_outcome-not_aged :
    (is_compaction : Bool) (policy : AgingPolicy) → unreadable_outcome is_compaction policy ≢ aged
unfolding unreadable_outcome
unreadable_outcome-not_aged true policy h = cc
unreadable_outcome-not_aged false policy h = elim (Bool-cases policy.enabled) [
  | inl on ↦ let bad : fail_original ≡ aged = rw on at h in cc
  | inr off ↦ let bad : disabled ≡ aged = rw off at h in cc
]

module _ (json : Json) (codecs : Codecs) (sha256_hex : Str → Str) where
  open json use {Value}

  send_rewritten-IsFaithful :
      (body : Bytes) (encodings : EncodingChain) (root : Value) (aging : AgingResult)
      (diagnostics : RequestDiagnostics) (items : Option (List Value))
      → IsFaithful body
          (send_rewritten json codecs sha256_hex body encodings root aging diagnostics items)
  unfolding send_rewritten
  send_rewritten-IsFaithful body encodings root aging diagnostics none = inr ((λ h. cc), refl, refl)
  send_rewritten-IsFaithful body encodings root aging diagnostics (some items) = ground arith

  evaluate_root-IsFaithful :
      (body : Bytes) (policy : AgingPolicy) (encodings : EncodingChain) (root : Value)
      (diagnostics : RequestDiagnostics) (input : Option (List Value))
      → IsFaithful body
          (evaluate_root json codecs sha256_hex body policy encodings root diagnostics input)
  unfolding evaluate_root apply_aging no_replacement
  evaluate_root-IsFaithful body policy encodings root diagnostics none = inr ((λ h. cc), refl, refl)
  evaluate_root-IsFaithful body policy encodings root diagnostics (some input) =
      let aging = age_tool_results sha256_hex (map (normalize_history_item json) input) policy in
      IsFaithful-if body (is_none aging.replacements) _ _ (ground arith) (
        send_rewritten-IsFaithful body encodings root aging
          (apply_aging_diagnostics aging.evaluations (record diagnostics { aging_pass_ran = true }))
          (replace_outputs json aging.replacements input))

  prepare_root-IsFaithful :
      (body : Bytes) (is_compaction : Bool) (policy : AgingPolicy)
      (read : Option (EncodingChain × Value))
      → IsFaithful body (prepare_root json codecs sha256_hex body is_compaction policy read)
  unfolding prepare_root unreadable_outcome
  prepare_root-IsFaithful body is_compaction policy none = ground arith
  prepare_root-IsFaithful body is_compaction policy (some (encodings, root)) =
      IsFaithful-if body is_compaction _ _ (inr ((λ h. cc), refl, refl)) (
        IsFaithful-if body (not policy.enabled) _ _ (inr ((λ h. cc), refl, refl)) (
          evaluate_root-IsFaithful body policy encodings root
            (record (inspect_request json root) {
              previous_response_id_preserved = (inspect_request json root).has_previous_response_id;
            })
            (input_of json root)))

  -- Whatever the request, its body is either rewritten under the outcome `aged`, or forwarded
  -- byte for byte under another outcome, and `body_changed` tells which.
  pub prepare-IsFaithful :
      (body : Bytes) (encoding : Option Str) (path : Str) (policy : AgingPolicy)
      → IsFaithful body (prepare_responses_body json codecs sha256_hex body encoding path policy)
  unfolding prepare_responses_body
  prepare-IsFaithful body encoding path policy =
      IsFaithful-if body _ _ _ (inr ((λ h. cc), refl, refl)) (
        prepare_root-IsFaithful body (is_compaction_path path) policy
          (decode_root json codecs sha256_hex body encoding))

  -- Where a rewritten body comes from.
  pub record IsRewritten (body : Bytes) (encoding : Option Str) (policy : AgingPolicy)
      (sent : Bytes) : Type 0 where
    pub encodings : EncodingChain
    pub root : Value
    pub input : List Value
    pub items : List Value
    pub enabled : policy.enabled ≡ true
    pub read : decode_root json codecs sha256_hex body encoding ≡ some (encodings, root)
    pub has_input : input_of json root ≡ some input
    pub replaced :
        replace_outputs json
          (age_tool_results sha256_hex
            (map (normalize_history_item json) input)
            policy).replacements
          input
        ≡ some items
    pub rewritten : rewrite_body json codecs sha256_hex encodings root items ≡ some sent

  send_rewritten-aged :
      (body : Bytes) (encodings : EncodingChain) (root : Value) (aging : AgingResult)
      (diagnostics : RequestDiagnostics) (items : Option (List Value))
      → (send_rewritten json codecs sha256_hex body encodings root aging diagnostics items).outcome
        ≡ aged
      → (items' : List Value) × (items ≡ some items')
        × (rewrite_body json codecs sha256_hex encodings root items'
            ≡ some
                (send_rewritten json codecs sha256_hex body encodings root aging diagnostics
                  items).bytes)
  unfolding send_rewritten
  send_rewritten-aged body encodings root aging diagnostics none h = cc
  send_rewritten-aged body encodings root aging diagnostics (some items) h =
      (items, refl, ground arith)

  evaluate_root-aged :
      (body : Bytes) (encoding : Option Str) (policy : AgingPolicy) (encodings : EncodingChain)
      (root : Value) (diagnostics : RequestDiagnostics) (input : Option (List Value))
      → policy.enabled ≡ true
      → decode_root json codecs sha256_hex body encoding ≡ some (encodings, root)
      → input_of json root ≡ input
      → (evaluate_root json codecs sha256_hex body policy encodings root diagnostics input).outcome
        ≡ aged
      → IsRewritten body encoding policy
          (evaluate_root json codecs sha256_hex body policy encodings root diagnostics input).bytes
  unfolding evaluate_root apply_aging no_replacement
  evaluate_root-aged body encoding policy encodings root diagnostics none on read has h = cc
  evaluate_root-aged body encoding policy encodings root diagnostics (some input) on read has h =
      let aging = age_tool_results sha256_hex (map (normalize_history_item json) input) policy in
      let counted =
        apply_aging_diagnostics aging.evaluations (record diagnostics { aging_pass_ran = true }) in
      elim (Bool-cases (is_none aging.replacements)) [
        | inl nothing ↦
            let impossible : (no_replacement body aging counted).outcome ≢ aged = ground arith in
            absurd (impossible (rw nothing at h))
        | inr some_aged ↦
            let (items, replaced, sent) =
              send_rewritten-aged body encodings root aging counted
                (replace_outputs json aging.replacements input) (rw some_aged at h) in
            record {
              encodings = encodings;
              root = root;
              input = input;
              items = items;
              enabled = on;
              read = read;
              has_input = has;
              replaced = replaced;
              rewritten = rw some_aged sent;
            }
      ]

  IsRewritten-if :
      (body : Bytes) (encoding : Option Str) (policy : AgingPolicy) (b : Bool)
      (p q : PreparedRequestBody)
      → p.outcome ≢ aged
      → (b ≡ false → q.outcome ≡ aged → IsRewritten body encoding policy q.bytes)
      → (if b then p else q).outcome ≡ aged
      → IsRewritten body encoding policy (if b then p else q).bytes
  IsRewritten-if body encoding policy true p q bad k h = absurd (bad h)
  IsRewritten-if body encoding policy false p q bad k h = k refl h

  prepare_root-aged :
      (body : Bytes) (encoding : Option Str) (is_compaction : Bool) (policy : AgingPolicy)
      (read : Option (EncodingChain × Value))
      → decode_root json codecs sha256_hex body encoding ≡ read
      → (prepare_root json codecs sha256_hex body is_compaction policy read).outcome ≡ aged
      → IsRewritten body encoding policy
          (prepare_root json codecs sha256_hex body is_compaction policy read).bytes
  unfolding prepare_root
  prepare_root-aged body encoding is_compaction policy none found h =
      absurd (unreadable_outcome-not_aged is_compaction policy h)
  prepare_root-aged body encoding is_compaction policy (some (encodings, root)) found h =
      IsRewritten-if body encoding policy is_compaction _ _ (λ e. cc)
        (λ not_compaction h'.
          IsRewritten-if body encoding policy (not policy.enabled) _ _ (λ e. cc)
            (λ enabled h''.
              evaluate_root-aged body encoding policy encodings root
                (record (inspect_request json root) {
                  previous_response_id_preserved =
                      (inspect_request json root).has_previous_response_id;
                })
                (input_of json root) (not-false policy.enabled enabled) found refl h'')
            h')
        h

  -- A body that is sent under the outcome `aged` is, encoded again by the chain it came with, the
  -- root that was read with its `input` replaced by the items of the aging pass, and the policy
  -- was enabled.
  pub prepare-IsRewritten :
      (body : Bytes) (encoding : Option Str) (path : Str) (policy : AgingPolicy)
      → (prepare_responses_body json codecs sha256_hex body encoding path policy).outcome ≡ aged
      → IsRewritten body encoding policy
          (prepare_responses_body json codecs sha256_hex body encoding path policy).bytes
  unfolding prepare_responses_body
  prepare-IsRewritten body encoding path policy =
      IsRewritten-if body encoding policy
        (not (is_responses_path path) && not (is_compaction_path path)) _ _ (λ e. cc)
        (λ _ h.
          prepare_root-aged body encoding (is_compaction_path path) policy
            (decode_root json codecs sha256_hex body encoding) refl h)
