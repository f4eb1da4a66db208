-- ===== src/Transport/Request/Items/Written.antt =====
-- src/modules/transport/request.rs: the items of a request before and after the replacements.
use mathlib.Core.Path.{subst}
use tokensaver.Prelude.{
  ℕ, ◌≡◌, refl, ap, ◌∙◌, inl, inr, Bool, true, false, Option, none, some, List, [], ◌∷◌, ◌==◌,
  ==_iff, if◌then◌else◌, Bool-cases, Option-cases, length, length-set, get_elem?, set,
  get_elem?-set, Str, codes, str_eq, arith,
}
use tokensaver.Aging.Engine.{AgedReplacement}
use tokensaver.Transport.Json.{Json, JsonLaws}
use tokensaver.Transport.Request.Items.{replacement_still_matches, replace_output, replace_outputs}

abbrev last_of : Option Str → Bool → Str → Option Str
last_of (some last) here receipt = some last
last_of none here receipt = if here then some receipt else none

-- the receipt that a list of replacements has for an item: that of the last one
abbrev pub receipt_at : List AgedReplacement → ℕ → Option Str
receipt_at [] i = none
receipt_at (r ∷ rs) i = last_of (receipt_at rs i) (r.item_index == i) r.receipt

module _ (json : Json) where
  open json use {Value, get, is_object, string, insert}

  -- An item before and after the replacements: without a receipt it is the same; with one its
  -- output is the receipt, and every other member is the same.
  abbrev pub IsWritten : Option Str → Value → Value → Type 0
  IsWritten none item item' = item' ≡ item
  IsWritten (some receipt) item item' =
      (get (codes "output") item' ≡ some (string receipt))
      × ((key : Str) → str_eq (codes "output") key ≡ false → get key item' ≡ get key item)

  replace_output-some :
      (r : AgedReplacement) (items items' : List Value)
      → replace_output json r items ≡ some items'
      → (item : Value) × (get_elem? items r.item_index ≡ some item)
        × (is_object item ≡ true)
        × (items' ≡ set items r.item_index (insert (codes "output") (string r.receipt) item))
  unfolding replace_output replacement_still_matches
  replace_output-some r items items' h = elim (Option-cases (get_elem? items r.item_index)) [
    | inl absent ↦ let bad = rw (absent, replace_output) at h in cc
    | inr (item, found) ↦
        let tested = rw (found, replace_output) at h in
        elim (Bool-cases (replacement_still_matches json item r.source_kind r.source_call_id)) [
          | inr other ↦ let bad = rw other at tested in cc
          | inl kept ↦
              let written = rw kept at tested in
              let object : is_object item ≡ true = ground arith in (item, found, object, cc)
        ]
  ]

  IsWritten-apart :
      (later : Option Str) (here : Bool) (receipt : Str) (item item' : Value)
      → here ≡ false
      → IsWritten later item item'
      → IsWritten (last_of later here receipt) item item'
  IsWritten-apart none true receipt item item' h w = cc
  IsWritten-apart none false receipt item item' h w = w
  IsWritten-apart (some last) here receipt item item' h w = w

  IsWritten-insert :
      (laws : JsonLaws json) (later : Option Str) (here : Bool) (receipt : Str) (item item' : Value)
      → here ≡ true
      → is_object item ≡ true
      → IsWritten later (insert (codes "output") (string receipt) item) item'
      → IsWritten (last_of later here receipt) item item'
  unfolding str_eq
  IsWritten-insert laws none false receipt item item' h object same = cc
  IsWritten-insert laws none true receipt item item' h object same = rw same (
    laws.get-insert (codes "output") (codes "output") (string receipt) item object,
    λ key apart. laws.get-insert (codes "output") key (string receipt) item object ∙ rw apart,
  )
  IsWritten-insert laws (some last) here receipt item item' h object (output, others) = (
    output,
    λ key apart.
        others key apart
        ∙ laws.get-insert (codes "output") key (string receipt) item object
        ∙ rw apart,
  )

  pub replace_outputs-IsWritten :
      (laws : JsonLaws json) (rs : List AgedReplacement) (items items' : List Value)
      → replace_outputs json rs items ≡ some items'
      → (i : ℕ) (item : Value) → get_elem? items i ≡ some item
      → (item' : Value) × (get_elem? items' i ≡ some item') × IsWritten (receipt_at rs i) item item'
  unfolding replace_outputs
  replace_outputs-IsWritten laws [] items items' h i item at = (item, cc, refl)
  replace_outputs-IsWritten laws (r ∷ rs) items items' h i item at =
      elim (Option-cases (replace_output json r items)) [
        | inl failed ↦ let bad = rw (failed, replace_outputs) at h in cc
        | inr (middle, step) ↦
            let rest = rw (step, replace_outputs) at h in
            let (old, found, object, written) = replace_output-some r items middle step in
            let value = insert (codes "output") (string r.receipt) old in
            let there : get_elem? middle i
                ≡ (if r.item_index == i then some value else get_elem? items i) =
              rw written (get_elem?-set items r.item_index i old value found) in
            elim (Bool-cases (r.item_index == i)) [
              | inr apart ↦
                  let (item', at', w) =
                    replace_outputs-IsWritten laws rs middle items' rest i item
                      (there ∙ rw apart at) in
                  (item', at', IsWritten-apart (receipt_at rs i) _ r.receipt item item' apart w)
              | inl same ↦
                  let index = (==_iff r.item_index i).0 same in
                  let one : old ≡ item = cc in
                  let chosen : (if r.item_index == i then some value else get_elem? items i)
                      ≡ some value =
                    rw same in
                  let (item', at', w) =
                    replace_outputs-IsWritten laws rs middle items' rest i value (there ∙ chosen) in
                  let whole =
                    IsWritten-insert laws (receipt_at rs i) _ r.receipt old item' same object w in
                  (item', at', subst (λ o. IsWritten (receipt_at (r ∷ rs) i) o item') one whole)
            ]
      ]

  pub length-replace_outputs :
      (rs : List AgedReplacement) (items items' : List Value)
      → replace_outputs json rs items ≡ some items'
      → length items' ≡ length items
  unfolding replace_outputs
  length-replace_outputs [] items items' h = cc
  length-replace_outputs (r ∷ rs) items items' h =
      elim (Option-cases (replace_output json r items)) [
        | inl failed ↦ let bad = rw (failed, replace_outputs) at h in cc
        | inr (middle, step) ↦
            let rest = rw (step, replace_outputs) at h in
            let (old, found, object, written) = replace_output-some r items middle step in
            length-replace_outputs rs middle items' rest
            ∙ ap length written
            ∙ length-set items r.item_index _
      ]
