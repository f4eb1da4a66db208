-- ===== src/Codex/Toml.antt =====
-- What the Codex configuration uses of the crate toml_edit: the type of documents and its
-- operations as an interface, and their documented laws as a second record that theorems take.
use tokensaver.Prelude.{
  ◌≡◌, inl, inr, Bool, true, false, Option, none, some, [], if◌then◌else◌, Bool-cases, Str, str_eq,
  trim, str_eq-true,
}

pub record Toml : Type 1 where
  pub Document : Type 0
  pub Item : Type 0
  -- `DocumentMut::new`, `str::parse` and `to_string`
  pub blank : Document
  pub parse : Str → Option Document
  pub print : Document → Str
  -- `DocumentMut::get`, `document[key] = value(text)` and `Table::remove`
  pub get : Str → Document → Option Item
  pub insert : Str → Str → Document → Document
  pub remove : Str → Document → Document
  -- whether an item is `Item::None`, and `Item::as_str`
  pub is_none_item : Item → Bool
  pub as_str : Item → Option Str

-- What a reader sees under a key.
pub data Seen : Type 0 where
  nothing not_text : Seen
  text : Str → Seen

seen_item : Bool → Option Str → Seen
seen_item true value = nothing
seen_item false none = not_text
seen_item false (some value) = text value

-- `match document.get(key) { None | Some(Item::None) => .., Some(item) => item.as_str() .. }`
unfoldable pub seen : (toml : Toml) → Str → toml.Document → Seen
unfolding seen_item
seen toml key document = elim (toml.get key document) [
  | none ↦ nothing
  | some item ↦ seen_item (toml.is_none_item item) (toml.as_str item)
]

pub record TomlLaws (toml : Toml) : Type 0 where
  pub inserted :
      (key value : Str) (document : toml.Document)
      → (item : toml.Item) × (toml.get key (toml.insert key value document) ≡ some item)
        × (toml.is_none_item item ≡ false)
        × (toml.as_str item ≡ some value)
  pub get-insert_other :
      (key other : Str) (value : Str) (document : toml.Document)
      → str_eq key other ≡ false
      → toml.get other (toml.insert key value document) ≡ toml.get other document
  pub get-remove :
      (key other : Str) (document : toml.Document)
      → toml.get other (toml.remove key document)
        ≡ (if str_eq key other then none else toml.get other document)
  -- the empty document has no key, and a text of white space is that of a document without keys
  pub get-blank : (key : Str) → toml.get key toml.blank ≡ none
  pub seen-print :
      (key : Str) (document : toml.Document)
      → trim (toml.print document) ≡ []
      → seen toml key document ≡ nothing
  -- a printed document is read back, and the same is seen in it
  pub parse-print :
      (document : toml.Document)
      → (read : toml.Document) × (toml.parse (toml.print document) ≡ some read)
        × ((key : Str) → seen toml key read ≡ seen toml key document)

module _ (toml : Toml) (laws : TomlLaws toml) where
  pub seen-insert :
      (key other value : Str) (document : toml.Document)
      → seen toml other (toml.insert key value document)
        ≡ (if str_eq key other then text value else seen toml other document)
  unfolding seen
  seen-insert key other value document = elim (Bool-cases (str_eq key other)) [
    | inl same ↦
        let (item, got, is_item, value_of) = laws.inserted key value document in
        rw same (rw (← str_eq-true key other same) (rw (got, seen) (rw is_item (rw value_of))))
    | inr apart ↦ rw apart (rw (laws.get-insert_other key other value document apart, seen))
  ]

  pub seen-remove :
      (key other : Str) (document : toml.Document)
      → seen toml other (toml.remove key document)
        ≡ (if str_eq key other then nothing else seen toml other document)
  unfolding seen
  seen-remove key other document = elim (Bool-cases (str_eq key other)) [
    | inl same ↦ rw same (rw (laws.get-remove key other document, seen) (rw same))
    | inr apart ↦ rw apart (rw (laws.get-remove key other document, seen) (rw apart))
  ]
