-- ===== src/Aging/Engine/Refines.antt =====
-- src/modules/aging/engine.rs: the passes over tables of indexes decide as the specification does.
use mathlib.Core.List.{append-nil, append_assoc}
use tokensaver.Prelude.{
  ℕ, suc, ◌≡◌, refl, sym, ap, ◌∙◌, inl, inr, true, false, Option, none, some, List, [], ◌∷◌, ◌++◌,
  arith, leb, Bool-cases, length, get_or, length-append, contains, Str, len,
}
use tokensaver.Aging.Model.{
  ToolResultKind, ToolOutput, HistoryItem, text, text_parts, unsupported, tool_result, AgingPolicy,
  textual_value, textual_byte_len, is_tool_result, as_tool_result,
}
use tokensaver.Aging.Receipt.{build_receipt}
use tokensaver.Aging.Engine.{
  tool_name, AgingResult, ToolResultEvaluation, AgedReplacement, Pass, age_sized, age_item,
  age_loop, pass_of, age_tool_results, push_evaluation, skip, count_eligible, replace_if_smaller,
  observe_size, call_name_map, default_result,
}
use tokensaver.Aging.Engine.Spec.{
  is_protected, is_consumed, evaluation_sized, replacements_sized, spec_evaluations,
  spec_replacements,
}
use tokensaver.Aging.Engine.Tables.{acted_after_map-any, protected-count}

-- The state after a round: one more evaluation, and the replacements of the round.
abbrev Adds : AgingResult → AgingResult → List ToolResultEvaluation → List AgedReplacement → Type 0
Adds state next evaluations replacements =
    (next.evaluations ≡ state.evaluations ++ evaluations)
    × (next.replacements ≡ state.replacements ++ replacements)

Adds-trans :
    (s t u : AgingResult) (e f : List ToolResultEvaluation) (q r : List AgedReplacement)
    → Adds s t e q
    → Adds t u f r
    → Adds s u (e ++ f) (q ++ r)
Adds-trans s t u e f q r h k = (
  k.0 ∙ ap (λ l. l ++ f) h.0 ∙ append_assoc s.evaluations e f,
  k.1 ∙ ap (λ l. l ++ r) h.1 ∙ append_assoc s.replacements q r,
)

Adds-none : (s : AgingResult) → Adds s s [] []
Adds-none s = (sym (append-nil _), sym (append-nil _))

module _ (sha256_hex : Str → Str) where
  module _ (pass : Pass) (index : ℕ) (kind : ToolResultKind) (call_id : Option Str)
      (output : ToolOutput) (later : List HistoryItem) (state : AgingResult)
      (p : contains pass.protected_indexes index ≡ is_protected pass.policy later)
      (q : get_or pass.acted_after index false ≡ is_consumed later) where
    abbrev AddsSized : Option ℕ → Type 0
    AddsSized bytes =
        Adds state (age_sized sha256_hex pass index kind call_id output bytes state)
          (evaluation_sized sha256_hex pass.policy pass.call_names index kind call_id output later
              bytes
            ∷ [])
          (replacements_sized sha256_hex pass.policy pass.call_names index kind call_id output later
            bytes)

    age_sized-none : AddsSized none
    unfolding age_sized skip push_evaluation
    age_sized-none = elim (Bool-cases (is_protected pass.policy later)) [
      | inl yes_protected ↦ rw (p, yes_protected) (refl, sym (append-nil _))
      | inr free ↦ rw (p, free) (refl, sym (append-nil _))
    ]

    age_sized-some :
        (before : ℕ) (value : Str) → textual_value output ≡ some value → AddsSized (some before)
    unfolding age_sized skip push_evaluation count_eligible replace_if_smaller
    age_sized-some before value v = elim (Bool-cases (is_protected pass.policy later)) [
      | inl yes_protected ↦ rw (p, yes_protected) (refl, sym (append-nil _))
      | inr free ↦
          rw (p, free)
            (elim (Bool-cases (leb before pass.policy.min_bytes)) [
              | inl small ↦ rw small (refl, sym (append-nil _))
              | inr large ↦
                  rw (large, q)
                    (elim (Bool-cases (is_consumed later)) [
                      | inr waiting ↦ rw waiting (refl, sym (append-nil _))
                      | inl acted ↦
                          rw (acted, v)
                            (let receipt =
                                build_receipt sha256_hex value (tool_name pass.call_names call_id)
                                  pass.policy.preview_code_units in
                              elim (Bool-cases (leb before (len receipt))) [
                                | inl longer ↦ rw longer (refl, sym (append-nil _))
                                | inr shorter ↦ rw shorter (refl, refl)
                              ])
                    ])
            ])
    ]

  age_sized-Adds :
      (pass : Pass) (index : ℕ) (kind : ToolResultKind) (call_id : Option Str) (output : ToolOutput)
      (later : List HistoryItem) (state : AgingResult)
      (p : contains pass.protected_indexes index ≡ is_protected pass.policy later)
      (q : get_or pass.acted_after index false ≡ is_consumed later)
      → AddsSized pass index kind call_id output later state p q (textual_byte_len output)
  unfolding textual_byte_len textual_value
  age_sized-Adds pass index kind call_id (text v) later state p q =
      age_sized-some pass index kind call_id (text v) later state p q (len v) v refl
  age_sized-Adds pass index kind call_id (text_parts vs) later state p q =
      age_sized-some pass index kind call_id (text_parts vs) later state p q _ _ refl
  age_sized-Adds pass index kind call_id unsupported later state p q =
      age_sized-none pass index kind call_id unsupported later state p q

  -- The loop, from a position of the history on.
  age_loop-Adds :
      (input : List HistoryItem) (policy : AgingPolicy) (index : ℕ)
      (before items : List HistoryItem) (state : AgingResult)
      → index ≡ length before
      → input ≡ before ++ items
      → Adds state
          (age_loop sha256_hex (pass_of input policy) index items state)
          (spec_evaluations sha256_hex policy (call_name_map input) index items)
          (spec_replacements sha256_hex policy (call_name_map input) index items)
  unfolding age_loop age_item as_tool_result is_tool_result
  age_loop-Adds input policy index before [] state at splits = Adds-none state
  age_loop-Adds input policy index before (tool_result kind call_id output ∷ items) state at
        splits =
      let item = tool_result kind call_id output in
      let seen : AgingResult = record state {
        stats = observe_size (textual_byte_len output) state.stats;
      } in
      let next =
        age_sized sha256_hex (pass_of input policy) index kind call_id output
          (textual_byte_len output) seen in
      Adds-trans state next (age_loop sha256_hex (pass_of input policy) (suc index) items next) _ _
        _ _
        (age_sized-Adds (pass_of input policy) index kind call_id output items seen
          (rw (at, splits) (protected-count before item items policy.frontier refl))
          (rw (at, splits) (acted_after_map-any before item items)))
        (age_loop-Adds input policy (suc index) (before ++ item ∷ []) items next
          (omega (arith, length-append before (item ∷ [])))
          (splits ∙ sym (append_assoc before (item ∷ []) items)))
  age_loop-Adds input policy index before (item ∷ items) state at splits =
      age_loop-Adds input policy (suc index) (before ++ item ∷ []) items state
        (omega (arith, length-append before (item ∷ [])))
        (splits ∙ sym (append_assoc before (item ∷ []) items))

  -- With the policy enabled, the evaluations and the replacements of a history are those of the
  -- specification: every tool result is evaluated once, in order, by what comes after it.
  pub age_tool_results-refines :
      (input : List HistoryItem) (policy : AgingPolicy)
      → policy.enabled ≡ true
      → ((age_tool_results sha256_hex input policy).evaluations
          ≡ spec_evaluations sha256_hex policy (call_name_map input) 0 input)
        × ((age_tool_results sha256_hex input policy).replacements
            ≡ spec_replacements sha256_hex policy (call_name_map input) 0 input)
  unfolding age_tool_results
  age_tool_results-refines [] policy on = rw on (refl, refl)
  age_tool_results-refines (item ∷ items) policy on =
      simp on (age_loop-Adds (item ∷ items) policy 0 [] (item ∷ items) default_result refl refl)
