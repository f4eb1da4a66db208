-- ===== src/Transport/Request/Items/Matching.antt =====
-- src/modules/transport/request.rs: a replacement that the aging domain proposes still finds its
-- item, before and after other items have been rewritten.
use tokensaver.Prelude.{
  ℕ, zero, suc, ◌≡◌, refl, ◌∙◌, inl, inr, true, false, Option, none, some, List, [], ◌∷◌, ◌++◌, map,
  arith, ◌==◌, ==_iff, Bool-cases, length, get_elem?, set, All, All-map, get_elem?-set, Str, codes,
  str_eq, str_eq_refl,
}
use tokensaver.Aging.Model.{ToolResultKind, ToolOutput, AgingPolicy, function, custom, tool_result}
use tokensaver.Aging.Engine.{AgedReplacement, CallNames, age_tool_results, call_name_map}
use tokensaver.Aging.Engine.Sound.{IsJustified, age_tool_results-IsJustified}
use tokensaver.Transport.Json.{Json, JsonLaws}
use tokensaver.Transport.Request.Items.{
  call, custom_call, call_output, custom_call_output, reasoning_item, message, unknown, ItemType,
  item_type, same_text, text_field, normalize_history_item, replacement_still_matches, normalize_as,
  replace_outputs, replace_output,
}

same_text_refl : (o : Option Str) → same_text o o ≡ true
unfolding same_text
same_text_refl none = refl
same_text_refl (some s) = str_eq_refl s

item_type-call_output :
    (name : Option Str)
    → item_type name ≡ call_output
    → same_text name (some (codes "function_call_output")) ≡ true
unfolding item_type same_text
item_type-call_output none h = cc
item_type-call_output (some name) h = ground arith

item_type-custom_call_output :
    (name : Option Str)
    → item_type name ≡ custom_call_output
    → same_text name (some (codes "custom_tool_call_output")) ≡ true
unfolding item_type same_text
item_type-custom_call_output none h = cc
item_type-custom_call_output (some name) h = ground arith

get_elem?-map {ℓ κ} :
    {A : Type ℓ} {B : Type κ} (f : A → B) (xs : List A) (i : ℕ) (b : B)
    → get_elem? (map f xs) i ≡ some b
    → (a : A) × (get_elem? xs i ≡ some a) × (f a ≡ b)
get_elem?-map f [] i b h = cc
get_elem?-map f (x ∷ xs) zero b h = (x, refl, cc)
get_elem?-map f (x ∷ xs) (suc i) b h = get_elem?-map f xs i b h

get_elem?-append {ℓ} :
    {A : Type ℓ} (before : List A) (a : A) (later : List A)
    → get_elem? (before ++ a ∷ later) (length before) ≡ some a
get_elem?-append [] a later = refl
get_elem?-append (b ∷ before) a later = get_elem?-append before a later

module _ (json : Json) where
  open json use {Value, get, is_object, string, insert}

  normalize_as-tool_result :
      (type : ItemType) (item : Value) (kind : ToolResultKind) (call_id : Option Str)
      (output : ToolOutput)
      → is_object item ≡ true
      → item_type (text_field json (codes "type") item) ≡ type
      → normalize_as json type item ≡ tool_result kind call_id output
      → replacement_still_matches json item kind call_id ≡ true
  unfolding normalize_as replacement_still_matches
  normalize_as-tool_result call item kind call_id output o t h = cc
  normalize_as-tool_result custom_call item kind call_id output o t h = cc
  normalize_as-tool_result call_output item kind call_id output o t h =
      let same_kind : function ≡ kind = cc in
      let same_id : text_field json (codes "call_id") item ≡ call_id = cc in
      rw (← same_kind, ← same_id)
        (rw (o, item_type-call_output _ t, same_text_refl (text_field json (codes "call_id") item)))
  normalize_as-tool_result custom_call_output item kind call_id output o t h =
      let same_kind : custom ≡ kind = cc in
      let same_id : text_field json (codes "call_id") item ≡ call_id = cc in
      rw (← same_kind, ← same_id)
        (rw (
          o,
          item_type-custom_call_output _ t,
          same_text_refl (text_field json (codes "call_id") item),
        ))
  normalize_as-tool_result reasoning_item item kind call_id output o t h = cc
  normalize_as-tool_result message item kind call_id output o t h = ground arith
  normalize_as-tool_result unknown item kind call_id output o t h = cc

  -- An item that reads as a tool result passes the check that its replacement makes.
  pub normalize-still_matches :
      (item : Value) (kind : ToolResultKind) (call_id : Option Str) (output : ToolOutput)
      → normalize_history_item json item ≡ tool_result kind call_id output
      → replacement_still_matches json item kind call_id ≡ true
  unfolding normalize_history_item
  normalize-still_matches item kind call_id output h = elim (Bool-cases (is_object item)) [
    | inl o ↦ normalize_as-tool_result _ item kind call_id output o refl (rw o at h)
    | inr o ↦ let bad = rw o at h in cc
  ]

  text_field-insert :
      (laws : JsonLaws json) (key : Str) (item value : Value)
      → str_eq (codes "output") key ≡ false
      → is_object item ≡ true
      → text_field json key (insert (codes "output") value item) ≡ text_field json key item
  unfolding text_field
  text_field-insert laws key item value apart o =
      rw (laws.get-insert (codes "output") key value item o, text_field) (rw (apart, text_field))

  -- Writing the output of an item keeps the check for any replacement.
  still_matches-insert :
      (laws : JsonLaws json) (item value : Value) (kind : ToolResultKind) (call_id : Option Str)
      → replacement_still_matches json item kind call_id ≡ true
      → replacement_still_matches json (insert (codes "output") value item) kind call_id ≡ true
  unfolding replacement_still_matches str_eq
  still_matches-insert laws item value kind call_id h =
      let o : is_object item ≡ true = ground arith in
      rw
        (
          laws.is_object-insert (codes "output") value item o,
          text_field-insert laws (codes "type") item value refl o,
          text_field-insert laws (codes "call_id") item value refl o,
        )
        (ground arith)

  -- The item that a replacement names is there and passes its check.
  pub Applies : List Value → AgedReplacement → Type 0
  Applies items r =
      (item : Value) × (get_elem? items r.item_index ≡ some item)
      × (replacement_still_matches json item r.source_kind r.source_call_id ≡ true)

  Applies-set :
      (laws : JsonLaws json) (items : List Value) (q r : AgedReplacement) (item : Value)
      → get_elem? items q.item_index ≡ some item
      → replacement_still_matches json item q.source_kind q.source_call_id ≡ true
      → Applies items r
      → Applies (set items q.item_index (insert (codes "output") (string q.receipt) item)) r
  unfolding Applies
  Applies-set laws items q r item found matches (other_item, at, fits) =
      let value = insert (codes "output") (string q.receipt) item in
      let written = get_elem?-set items q.item_index r.item_index item value found in
      elim (Bool-cases (q.item_index == r.item_index)) [
        | inl same ↦
            let index = (==_iff q.item_index r.item_index).0 same in
            let one : item ≡ other_item = cc in
            (
              value,
              written ∙ rw same,
              still_matches-insert laws item (string q.receipt) r.source_kind r.source_call_id
                  (rw one fits),
            )
        | inr apart ↦ (other_item, written ∙ rw apart at, fits)
      ]

  pub replace_outputs-some :
      (laws : JsonLaws json) (replacements : List AgedReplacement) (items : List Value)
      → All (Applies items) replacements
      → (items' : List Value) × (replace_outputs json replacements items ≡ some items')
  unfolding replace_outputs Applies
  replace_outputs-some laws [] items h = (items, refl)
  replace_outputs-some laws (r ∷ rs) items ((item, found, fits), more) =
      let items' = set items r.item_index (insert (codes "output") (string r.receipt) item) in
      let step : replace_output json r items ≡ some items' = rw (found, replace_output) (rw fits) in
      rw (step, replace_outputs)
        (replace_outputs-some laws rs items' (
          All-map (Applies items) (Applies items') rs
            (λ q. Applies-set laws items r q item found fits) more))

  Applies-IsJustified :
      (sha256_hex : Str → Str) (policy : AgingPolicy) (names : CallNames) (input : List Value)
      (r : AgedReplacement)
      → IsJustified sha256_hex policy names (map (normalize_history_item json) input) r
      → Applies input r
  unfolding Applies
  Applies-IsJustified sha256_hex policy names input r h =
      let item = tool_result r.source_kind r.source_call_id h.output in
      let read : get_elem? (map (normalize_history_item json) input) r.item_index ≡ some item =
        rw (← h.at_index, h.in_history) (get_elem?-append h.before item h.later) in
      let (value, at, reads_as) =
        get_elem?-map (normalize_history_item json) input r.item_index item read in
      (value, at, normalize-still_matches value r.source_kind r.source_call_id h.output reads_as)

  -- Every replacement that a pass under an enabled policy proposes for the items of a request can
  -- be made, where JSON objects obey their laws.
  pub age_tool_results-applies :
      (laws : JsonLaws json) (sha256_hex : Str → Str) (policy : AgingPolicy) (input : List Value)
      → policy.enabled ≡ true
      → (items : List Value) × (replace_outputs json
            (age_tool_results sha256_hex
              (map (normalize_history_item json) input)
              policy).replacements
            input
          ≡ some items)
  age_tool_results-applies laws sha256_hex policy input on =
      let history = map (normalize_history_item json) input in
      let names = call_name_map history in
      replace_outputs-some laws _ input (
        All-map (IsJustified sha256_hex policy names history) (Applies input) _
          (Applies-IsJustified sha256_hex policy names input)
          (age_tool_results-IsJustified sha256_hex history policy on))
