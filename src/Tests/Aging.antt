-- ===== src/Tests/Aging.antt =====
-- Runs of src/modules/aging on a short history: a call, its long result, an answer of the model.
use tokensaver.Prelude.{
  ◌+◌, ◌≤◌, ◌≡◌, refl, true, false, some, List, [], ◌∷◌, ◌++◌, reverse, arith, ltb, get_or,
  replicate, All, any, contains, u64_max, Str, codes, len_utf8, len, utf16_units,
}
use tokensaver.Aging.Model.{
  HistoryItem, AgingPolicy, function_call, tool_result, function, text, text_parts,
  textual_byte_len, textual_value, is_model_action, is_tool_result,
}
use tokensaver.Aging.Model.{textual_byte_len-eq}
use tokensaver.Aging.Receipt.{safe_head, safe_tail}
use tokensaver.Aging.Receipt.Preview.{
  IsLongest, NextExceeds, safe_head-IsLongest, safe_tail-IsLongest,
}
use tokensaver.Aging.Engine.{
  age_tool_results, acted_after_map, protected_tool_result_indexes, call_name_map,
}
use tokensaver.Aging.Engine.Spec.{spec_evaluations, spec_replacements, count_tool_results}
use tokensaver.Aging.Engine.Tables.{acted_after_map-any, protected-count}
use tokensaver.Aging.Engine.Refines.{age_tool_results-refines}
use tokensaver.Aging.Engine.Sound.{IsJustified, age_tool_results-IsJustified}
use tokensaver.Aging.Engine.Stats.{Counts, age_tool_results-Counts}

abbrev no_hash : Str → Str
no_hash value = codes "00"

abbrev eager : AgingPolicy
eager = record { enabled = true; min_bytes = 100; frontier = 0; preview_code_units = 64 }

abbrev called : HistoryItem
called = function_call (some (codes "c1")) (some (codes "grep"))

abbrev result : HistoryItem
result = tool_result function (some (codes "c1")) (text (replicate 300 128512))

abbrev history : List HistoryItem
history = called ∷ result ∷ called ∷ []

age_tool_results-IsJustified_example :
    All
      (IsJustified no_hash eager (call_name_map history) history)
      (age_tool_results no_hash history eager).replacements
age_tool_results-IsJustified_example = age_tool_results-IsJustified no_hash history eager refl

age_tool_results-refines_example :
    ((age_tool_results no_hash history eager).evaluations
      ≡ spec_evaluations no_hash eager (call_name_map history) 0 history)
    × ((age_tool_results no_hash history eager).replacements
        ≡ spec_replacements no_hash eager (call_name_map history) 0 history)
age_tool_results-refines_example = age_tool_results-refines no_hash history eager refl

age_tool_results-Counts_example :
    Counts (age_tool_results no_hash history eager)
    × ((age_tool_results no_hash history eager).stats.tool_result_bytes_saved
          + (age_tool_results no_hash history eager).stats.tool_result_bytes_after
        ≡ (age_tool_results no_hash history eager).stats.tool_result_bytes_before)
age_tool_results-Counts_example = age_tool_results-Counts no_hash history eager

acted_after_map-any_example :
    get_or (acted_after_map history) 1 false ≡ any is_model_action (called ∷ [])
acted_after_map-any_example = acted_after_map-any (called ∷ []) result (called ∷ [])

protected-count_example :
    contains (protected_tool_result_indexes (called ∷ result ∷ result ∷ []) 1) 1
    ≡ ltb (count_tool_results (result ∷ [])) 1
unfolding is_tool_result
protected-count_example = protected-count (called ∷ []) result (result ∷ []) 1 refl

safe_head-IsLongest_example :
    (rest : Str) × IsLongest 3 (codes "a😀😀") (safe_head (codes "a😀😀") 3) rest
safe_head-IsLongest_example = safe_head-IsLongest (codes "a😀😀") 3

safe_tail-IsLongest_example :
    (before : Str) × (codes "a😀😀" ≡ before ++ safe_tail (codes "a😀😀") 3)
    × (utf16_units (safe_tail (codes "a😀😀") 3) ≤ 3)
    × NextExceeds 3 (utf16_units (safe_tail (codes "a😀😀") 3)) (reverse before)
safe_tail-IsLongest_example = safe_tail-IsLongest (codes "a😀😀") 3

abc_fits : len (codes "abc") ≤ u64_max
unfolding len len_utf8
abc_fits = omega arith

joined : textual_value (text_parts (codes "ab" ∷ codes "c" ∷ [])) ≡ some (codes "abc")
unfolding textual_value
joined = refl

textual_byte_len-eq_example :
    textual_byte_len (text_parts (codes "ab" ∷ codes "c" ∷ [])) ≡ some (len (codes "abc"))
textual_byte_len-eq_example =
    textual_byte_len-eq (text_parts (codes "ab" ∷ codes "c" ∷ [])) (codes "abc") joined abc_fits
