-- ===== src/Tests/Entries.antt =====
-- An instance of the interface of TOML documents: the entries of the top level, written as lines.
use tokensaver.Prelude.{
  ◌+◌, ◌-◌, ◌≡◌, refl, ap, ◌∙◌, inl, inr, Bool, true, false, Option, none, some, List, [], ◌∷◌,
  ◌++◌, map, arith, ◌==◌, if◌then◌else◌, Bool-cases, Str, str_eq, is_whitespace, trim, split,
  str_eq-true, str_eq_refl, str_eq_sym, trim-cons, lacks, split-lacks, split-append,
}
use tokensaver.Codex.Toml.{Toml, TomlLaws, nothing, seen}

abbrev pub Entries : Type 0
Entries = List (Str × Str)

shift : Str → Str
shift s = map (λ c. c + 100) s

unshift : Str → Str
unshift s = map (λ c. c - 100) s

unfoldable pub print_entries : Entries → Str
unfolding shift
print_entries [] = []
print_entries ((key, value) ∷ entries) =
    (b'=' ∷ shift key) ++ 10 ∷ (shift value ++ 10 ∷ print_entries entries)

entries_of_lines : List Str → Entries
unfolding unshift
entries_of_lines ((_ ∷ key) ∷ value ∷ lines) = (unshift key, unshift value) ∷ entries_of_lines lines
entries_of_lines _ = []

unfoldable pub parse_entries : Str → Option Entries
unfolding entries_of_lines
parse_entries s = some (entries_of_lines (split 10 s))

unfoldable pub lookup : Str → Entries → Option Str
lookup key [] = none
lookup key ((k, value) ∷ entries) = if str_eq key k then some value else lookup key entries

unfoldable pub erase : Str → Entries → Entries
erase key [] = []
erase key ((k, value) ∷ entries) =
    let rest = erase key entries in if str_eq key k then rest else (k, value) ∷ rest

abbrev pub entries_toml : Toml
entries_toml = record {
  Document = Entries;
  Item = Str;
  blank = [];
  parse = parse_entries;
  print = print_entries;
  get = lookup;
  insert = λ key value entries. (key, value) ∷ erase key entries;
  remove = erase;
  is_none_item = λ _. false;
  as_str = λ value. some value;
}

unshift-shift : (s : Str) → unshift (shift s) ≡ s
unfolding unshift shift
unshift-shift [] = refl
unshift-shift (c ∷ s) =
    let same : c + 100 - 100 ≡ c = omega arith in rw same (ap (λ t. c ∷ t) (unshift-shift s))

lacks-shift : (s : Str) → lacks 10 (shift s) ≡ true
unfolding shift
lacks-shift [] = refl
lacks-shift (c ∷ s) = let apart : (c + 100 == 10) ≡ false = ground arith in rw apart (lacks-shift s)

entries_of_lines-print :
    (entries : Entries) → entries_of_lines (split 10 (print_entries entries)) ≡ entries
unfolding print_entries entries_of_lines
entries_of_lines-print [] = rw (split-lacks 10 [] refl) refl
entries_of_lines-print ((key, value) ∷ entries) =
    rw
      (split-append 10 (b'=' ∷ shift key) (shift value ++ 10 ∷ print_entries entries)
        (lacks-shift key))
      (rw (split-append 10 (shift value) (print_entries entries) (lacks-shift value)) (
        rw (unshift-shift key)
          (rw (unshift-shift value) (ap (λ e. (key, value) ∷ e) (entries_of_lines-print entries)))))

absorbed :
    (b : Bool) (value : Str) (later : Option Str)
    → (if b then none else later) ≡ (if b then none else if b then some value else later)
absorbed true value later = refl
absorbed false value later = refl

exchanged :
    (key other k value : Str) (later : Option Str)
    → str_eq key k ≡ false
    → (if str_eq other k then some value else if str_eq key other then none else later)
      ≡ (if str_eq key other then none else if str_eq other k then some value else later)
exchanged key other k value later apart = elim (Bool-cases (str_eq key other)) [
  | inl same ↦
      let other_apart : str_eq other k ≡ false = rw (← str_eq-true key other same) apart in
      rw same (rw other_apart refl)
  | inr different ↦ rw different refl
]

lookup-erase :
    (key other : Str) (entries : Entries)
    → lookup other (erase key entries) ≡ (if str_eq key other then none else lookup other entries)
unfolding lookup erase
lookup-erase key other [] = ground arith
lookup-erase key other ((k, value) ∷ entries) = elim (Bool-cases (str_eq key k)) [
  | inl same ↦
      let turned : str_eq other k ≡ str_eq key other =
        rw (← str_eq-true key k same) (str_eq_sym other key) in
      rw same (
        rw turned (
          lookup-erase key other entries
          ∙ absorbed (str_eq key other) value (lookup other entries)))
  | inr apart ↦ rw apart (
      rw (lookup-erase key other entries)
        (exchanged key other k value (lookup other entries) apart))
]

seen-print_entries :
    (key : Str) (entries : Entries)
    → trim (print_entries entries) ≡ []
    → seen entries_toml key entries ≡ nothing
unfolding print_entries seen lookup is_whitespace
seen-print_entries key [] h = refl
seen-print_entries key ((k, value) ∷ entries) h =
    elim (trim-cons b'=' (shift k ++ 10 ∷ (shift value ++ 10 ∷ print_entries entries)) refl h) [ ]

pub entries_laws : TomlLaws entries_toml
unfolding lookup parse_entries
entries_laws = record {
  inserted = λ key value entries. (value, rw (str_eq_refl key) refl, refl, refl);
  get-insert_other = λ key other value entries apart.
      rw (str_eq_sym other key) (rw apart (lookup-erase key other entries ∙ rw apart refl));
  get-remove = lookup-erase;
  get-blank = λ key. refl;
  seen-print = seen-print_entries;
  parse-print = λ entries. (entries, ap some (entries_of_lines-print entries), λ key. refl);
}

pub parse_entries-print : (entries : Entries) → parse_entries (print_entries entries) ≡ some entries
unfolding parse_entries
parse_entries-print entries = ap some (entries_of_lines-print entries)
