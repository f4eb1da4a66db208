-- ===== src/Aging/Engine/Stats.antt =====
-- src/modules/aging/engine.rs: the counters of a pass agree with its evaluations and replacements.
use tokensaver.Prelude.{
  ℕ, suc, ◌+◌, ◌≤◌, ◌<◌, ◌≡◌, inl, inr, false, not, ◌||◌, Option, none, some, List, [], ◌∷◌, ◌++◌,
  arith, leb, Bool-cases, Option-cases, length, get_or, length-append, All, All-append, contains,
  Str, len,
}
use tokensaver.Aging.Model.{
  tool_result, ToolResultKind, ToolOutput, textual_value, textual_byte_len, HistoryItem,
  as_tool_result, AgingPolicy,
}
use tokensaver.Aging.Engine.{
  protected_frontier, at_or_below_threshold, unconsumed, AgedReplacement, ToolResultEvaluation,
  AgingResult, AgingSkipReason, push_evaluation, skip, default_result, Pass, observe_size,
  count_eligible, replace_if_smaller, age_sized, age_item, age_loop, pass_of, is_empty,
  age_tool_results, finish,
}

abbrev pub sum_before : List AgedReplacement → ℕ
sum_before [] = 0
sum_before (r ∷ rs) = r.bytes_before + sum_before rs

abbrev pub sum_after : List AgedReplacement → ℕ
sum_after [] = 0
sum_after (r ∷ rs) = r.bytes_after + sum_after rs

abbrev pub Saves : AgedReplacement → Type 0
Saves r = r.bytes_after < r.bytes_before

pub record Counts (r : AgingResult) : Type 0 where
  pub evaluated : r.stats.tool_results_evaluated ≡ length r.evaluations
  pub aged_ones : r.stats.tool_results_aged ≡ length r.replacements
  pub aged_within : r.stats.tool_results_aged ≤ r.stats.tool_results_eligible
  pub eligible_within : r.stats.tool_results_eligible ≤ r.stats.tool_results_evaluated
  pub before_sum : r.stats.tool_result_bytes_before ≡ sum_before r.replacements
  pub after_sum : r.stats.tool_result_bytes_after ≡ sum_after r.replacements
  pub each_saves : All Saves r.replacements

sum_before-append :
    (rs qs : List AgedReplacement) → sum_before (rs ++ qs) ≡ sum_before rs + sum_before qs
sum_before-append [] qs = omega arith
sum_before-append (r ∷ rs) qs = omega (arith, sum_before-append rs qs)

sum_after-append :
    (rs qs : List AgedReplacement) → sum_after (rs ++ qs) ≡ sum_after rs + sum_after qs
sum_after-append [] qs = omega arith
sum_after-append (r ∷ rs) qs = omega (arith, sum_after-append rs qs)

-- Within a round its tool result is counted and its evaluation is still to come; `a` eligible
-- results are not aged yet, and `e` counted ones not eligible.
record Counted (a e : ℕ) (r : AgingResult) : Type 0 where
  evaluated : r.stats.tool_results_evaluated ≡ suc (length r.evaluations)
  aged_ones : r.stats.tool_results_aged ≡ length r.replacements
  aged_within : r.stats.tool_results_aged + a ≤ r.stats.tool_results_eligible
  eligible_within : r.stats.tool_results_eligible + e ≤ r.stats.tool_results_evaluated
  before_sum : r.stats.tool_result_bytes_before ≡ sum_before r.replacements
  after_sum : r.stats.tool_result_bytes_after ≡ sum_after r.replacements
  each_saves : All Saves r.replacements

observe_size-Counted :
    (bytes : Option ℕ) (r : AgingResult)
    → Counts r
    → Counted 0 1 (record r { stats = observe_size bytes r.stats })
unfolding observe_size
observe_size-Counted none r h = ground arith
observe_size-Counted (some bytes) r h = ground arith

count_eligible-Counted : (r : AgingResult) → Counted 0 1 r → Counted 1 0 (count_eligible r)
unfolding count_eligible
count_eligible-Counted r h = ground arith

skip-Counts :
    (a e index : ℕ) (kind : ToolResultKind) (call_id : Option Str) (bytes : Option ℕ)
    (reason : AgingSkipReason) (r : AgingResult)
    → Counted a e r
    → Counts (skip index kind call_id bytes reason r)
unfolding skip push_evaluation
skip-Counts a e index kind call_id bytes reason r h = record {
  evaluated = omega (arith, length-append {0} {A = ToolResultEvaluation});
  aged_ones = h.aged_ones;
  aged_within = omega arith;
  eligible_within = omega arith;
  before_sum = h.before_sum;
  after_sum = h.after_sum;
  each_saves = h.each_saves;
}

replace_if_smaller-Counts :
    (index : ℕ) (kind : ToolResultKind) (call_id : Option Str) (before : ℕ) (receipt : Str)
    (r : AgingResult)
    → Counted 1 0 r
    → Counts (replace_if_smaller index kind call_id before receipt r)
unfolding replace_if_smaller push_evaluation
replace_if_smaller-Counts index kind call_id before receipt r h =
    elim (Bool-cases (leb before (len receipt))) [
      | inl longer ↦ rw longer (record {
        evaluated = omega (arith, length-append {0} {A = ToolResultEvaluation});
        aged_ones = h.aged_ones;
        aged_within = omega arith;
        eligible_within = omega arith;
        before_sum = h.before_sum;
        after_sum = h.after_sum;
        each_saves = h.each_saves;
      })
      | inr shorter ↦
          let less : len receipt < before = ground arith in
          rw shorter (record {
            evaluated = omega (arith, length-append {0} {A = ToolResultEvaluation});
            aged_ones = omega (arith, length-append {0} {A = AgedReplacement});
            aged_within = omega arith;
            eligible_within = omega arith;
            before_sum = omega (arith, sum_before-append);
            after_sum = omega (arith, sum_after-append);
            each_saves = All-append Saves _ _ h.each_saves (less, tt);
          })
    ]

module _ (sha256_hex : Str → Str) where
  age_sized-Counts :
      (pass : Pass) (index : ℕ) (kind : ToolResultKind) (call_id : Option Str) (output : ToolOutput)
      (bytes : Option ℕ) (r : AgingResult)
      → Counted 0 1 r
      → Counts (age_sized sha256_hex pass index kind call_id output bytes r)
  unfolding age_sized
  age_sized-Counts pass index kind call_id output none r h =
      elim (Bool-cases (contains pass.protected_indexes index)) [
        | inl near ↦ rw near (skip-Counts 0 1 index kind call_id none _ r h)
        | inr far ↦ rw far (skip-Counts 0 1 index kind call_id none _ r h)
      ]
  age_sized-Counts pass index kind call_id output (some before) r h =
      let skips =
        λ (reason : AgingSkipReason). skip-Counts 0 1 index kind call_id (some before) reason r h in
      elim (Bool-cases (contains pass.protected_indexes index)) [
        | inl near ↦ rw near (skips protected_frontier)
        | inr far ↦ rw far (elim (Bool-cases (leb before pass.policy.min_bytes)) [
          | inl small ↦ rw small (skips at_or_below_threshold)
          | inr large ↦ rw large (elim (Bool-cases (get_or pass.acted_after index false)) [
            | inr waiting ↦ rw waiting (skips unconsumed)
            | inl acted ↦ rw acted (elim (Option-cases (textual_value output)) [
              | inl none' ↦ rw none' (
                  skip-Counts 1 0 index kind call_id (some before) _ _ (count_eligible-Counted r h))
              | inr (value, e) ↦ rw e (
                  replace_if_smaller-Counts index kind call_id before _ _
                    (count_eligible-Counted r h))
            ])
          ])
        ])
      ]

  age_loop-Counts :
      (pass : Pass) (index : ℕ) (items : List HistoryItem) (r : AgingResult)
      → Counts r
      → Counts (age_loop sha256_hex pass index items r)
  unfolding age_loop age_item as_tool_result
  age_loop-Counts pass index [] r h = h
  age_loop-Counts pass index (tool_result kind call_id output ∷ items) r h =
      age_loop-Counts pass (suc index) items _ (
        age_sized-Counts pass index kind call_id output (textual_byte_len output) _
          (observe_size-Counted (textual_byte_len output) r h))
  age_loop-Counts pass index (item ∷ items) r h = age_loop-Counts pass (suc index) items r h

sum_after-le : (rs : List AgedReplacement) → All Saves rs → sum_after rs ≤ sum_before rs
sum_after-le [] h = omega arith
sum_after-le (r ∷ rs) (saves, more) = omega (arith, sum_after-le rs more)

finish-Counts :
    (r : AgingResult)
    → Counts r
    → Counts (finish r)
      × ((finish r).stats.tool_result_bytes_saved + (finish r).stats.tool_result_bytes_after
          ≡ (finish r).stats.tool_result_bytes_before)
unfolding finish
finish-Counts r h = (
  record {
    evaluated = h.evaluated;
    aged_ones = h.aged_ones;
    aged_within = h.aged_within;
    eligible_within = h.eligible_within;
    before_sum = h.before_sum;
    after_sum = h.after_sum;
    each_saves = h.each_saves;
  },
  omega (arith, sum_after-le r.replacements h.each_saves),
)

-- Of any pass: a result is counted for each evaluation, an aged one for each replacement; each
-- replacement is smaller than what it replaces; the byte counters are the sums over the
-- replacements; and the saving is what the two sums differ by.
pub age_tool_results-Counts :
    (sha256_hex : Str → Str) (input : List HistoryItem) (policy : AgingPolicy)
    → Counts (age_tool_results sha256_hex input policy)
      × ((age_tool_results sha256_hex input policy).stats.tool_result_bytes_saved
            + (age_tool_results sha256_hex input policy).stats.tool_result_bytes_after
          ≡ (age_tool_results sha256_hex input policy).stats.tool_result_bytes_before)
unfolding age_tool_results
age_tool_results-Counts sha256_hex input policy =
    elim (Bool-cases (not policy.enabled || is_empty input)) [
      | inl off ↦ rw off (ground arith, omega arith)
      | inr on ↦ rw on (
          finish-Counts _ (
            age_loop-Counts sha256_hex (pass_of input policy) 0 input default_result
              (ground arith)))
    ]
