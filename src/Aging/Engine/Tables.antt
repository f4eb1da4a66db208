-- ===== src/Aging/Engine/Tables.antt =====
-- src/modules/aging/engine.rs: what the precomputed tables of the engine hold at each index.
use mathlib.Core.List.{reverse_aux, reverse_aux-eq, reverse-append, append_assoc}
use tokensaver.Prelude.{
  ℕ, zero, suc, ◌+◌, ◌<◌, ◌≡◌, refl, ap, ◌∙◌, true, false, ◌||◌, List, [], ◌∷◌, ◌++◌, reverse,
  arith, ltb, suc-==-zero, length, get_or, take, any, contains,
}
use tokensaver.Aging.Model.{HistoryItem, is_model_action, is_tool_result}
use tokensaver.Aging.Engine.{
  acted_after_loop, acted_after_map, tool_result_indexes, protected_tool_result_indexes,
}
use tokensaver.Aging.Engine.Spec.{count_tool_results}

acted_after_loop-any :
    (items : List HistoryItem) → (acted_after_loop items).1 ≡ any is_model_action items
unfolding acted_after_loop is_model_action
acted_after_loop-any [] = refl
acted_after_loop-any (item ∷ items) = ground (arith, acted_after_loop-any items)

-- The flag of an item says whether a model action comes after it.
pub acted_after_map-any :
    (before : List HistoryItem) (item : HistoryItem) (later : List HistoryItem)
    → get_or (acted_after_map (before ++ item ∷ later)) (length before) false
      ≡ any is_model_action later
unfolding acted_after_map
acted_after_map-any [] item later = acted_after_loop-any later
acted_after_map-any (b ∷ before) item later = acted_after_map-any before item later

tool_result_indexes-append :
    (index : ℕ) (xs ys : List HistoryItem)
    → tool_result_indexes index (xs ++ ys)
      ≡ tool_result_indexes index xs ++ tool_result_indexes (index + length xs) ys
unfolding tool_result_indexes
tool_result_indexes-append index [] ys = ap (λ k. tool_result_indexes k ys) (omega arith)
tool_result_indexes-append index (x ∷ xs) ys =
    let shift : index + suc (length xs) ≡ suc index + length xs = omega arith in
    rw shift (ground (arith, tool_result_indexes-append (suc index) xs ys))

contains-below :
    (index i : ℕ) (xs : List HistoryItem)
    → i < index
    → contains (tool_result_indexes index xs) i ≡ false
unfolding contains tool_result_indexes
contains-below index i [] h = refl
contains-below index i (x ∷ xs) h = ground (arith, contains-below (suc index) i xs)

length-tool_result_indexes :
    (index : ℕ) (xs : List HistoryItem)
    → length (tool_result_indexes index xs) ≡ count_tool_results xs
unfolding tool_result_indexes is_tool_result
length-tool_result_indexes index [] = refl
length-tool_result_indexes index (x ∷ xs) =
    ground (arith, length-tool_result_indexes (suc index) xs)

contains-reverse_aux :
    (xs ys : List ℕ) (i : ℕ) → contains (reverse_aux xs ys) i ≡ contains xs i || contains ys i
unfolding contains
contains-reverse_aux [] ys i = refl
contains-reverse_aux (x ∷ xs) ys i = ground (arith, contains-reverse_aux xs (x ∷ ys) i)

length-reverse_aux : (xs ys : List ℕ) → length (reverse_aux xs ys) ≡ length xs + length ys
length-reverse_aux [] ys = omega arith
length-reverse_aux (x ∷ xs) ys = omega (arith, length-reverse_aux xs (x ∷ ys))

contains-take :
    (limit : ℕ) (xs ys : List ℕ) (i : ℕ)
    → contains xs i ≡ false
    → contains (take limit (xs ++ i ∷ ys)) i ≡ ltb (length xs) limit
unfolding contains
contains-take zero [] ys i h = ground arith
contains-take zero (x ∷ xs) ys i h = ground arith
contains-take (suc limit) [] ys i h = ground arith
contains-take (suc limit) (x ∷ xs) ys i h = ground (arith, contains-take limit xs ys i)

-- From the newest index down to the item's own: the results behind it, it, the results before it.
reverse-tool_result_indexes :
    (before : List HistoryItem) (item : HistoryItem) (later : List HistoryItem)
    → is_tool_result item ≡ true
    → reverse (tool_result_indexes 0 (before ++ item ∷ later))
      ≡ reverse (tool_result_indexes (suc (length before)) later)
        ++ length before ∷ reverse (tool_result_indexes 0 before)
unfolding tool_result_indexes
reverse-tool_result_indexes before item later h =
    let newer = tool_result_indexes (suc (length before)) later in
    let older = reverse (tool_result_indexes 0 before) in
    let start : 0 + length before ≡ length before = omega arith in
    rw (tool_result_indexes-append 0 before (item ∷ later)) (
      rw reverse-append (
        rw start (
          rw h (
            ap (λ l. l ++ older) (reverse_aux-eq newer (length before ∷ []))
            ∙ append_assoc (reverse newer) (length before ∷ []) older))))

-- A tool result is protected exactly if fewer than `frontier` tool results come after it.
pub protected-count :
    (before : List HistoryItem) (item : HistoryItem) (later : List HistoryItem) (frontier : ℕ)
    → is_tool_result item ≡ true
    → contains (protected_tool_result_indexes (before ++ item ∷ later) frontier) (length before)
      ≡ ltb (count_tool_results later) frontier
unfolding protected_tool_result_indexes contains
protected-count before item later zero h = ground arith
protected-count before item later (suc frontier) h =
    let newer = tool_result_indexes (suc (length before)) later in
    rw suc-==-zero (
      rw (reverse-tool_result_indexes before item later h) (
        contains-take (suc frontier) (reverse newer) _ (length before) (
          ground (
            arith,
            contains-reverse_aux newer [] (length before),
            contains-below (suc (length before)) (length before) later,
          ))
        ∙ ap (λ k. ltb k (suc frontier))
            (omega (
              arith,
              length-reverse_aux newer [],
              length-tool_result_indexes (suc (length before)) later,
            ))))
