-- ===== src/Tests/Runtime.antt =====
-- Runs of src/modules/runtime/preferences.rs: preferences that are read, changed and read again.
use tokensaver.Prelude.{
  ℕ, ◌≡◌, refl, Bool, true, false, none, some, [], ◌∷◌, arith, ◌==◌, if◌then◌else◌, Str, codes,
  str_eq,
}
use tokensaver.Runtime.Preferences.{
  RuntimePreferences, ok, contents, Reading, ToJson, FromJson, SettingsSnapshot, snapshot,
  of_min_bytes, validate, open_store, set_min_bytes, apply, set_numeric_setting_offline,
}
use tokensaver.Runtime.Preferences.Laws.{
  IsValid, IsSettled, open_store-IsValid, apply-IsSettled, set_numeric_setting_offline-open_store,
}

abbrev legacy : RuntimePreferences
legacy = record {
  schema_version = 1;
  saving_enabled = true;
  connect_on_launch = false;
  min_bytes = 4096;
  frontier = 2;
  preview_code_units = 512;
}

abbrev current : RuntimePreferences
current = record legacy { schema_version = 2 }

current-IsValid : IsValid current
current-IsValid = (refl, omega arith, omega arith, omega arith, omega arith)

-- a codec of five numbers and two flags
abbrev flag : Bool → ℕ
flag b = if b then 1 else 0

abbrev to_json : ToJson
to_json p = some (
    p.schema_version
    ∷ flag p.saving_enabled
    ∷ flag p.connect_on_launch
    ∷ p.min_bytes
    ∷ p.frontier
    ∷ p.preview_code_units
    ∷ [])

abbrev from_json : FromJson
from_json (version ∷ saving ∷ launch ∷ min_bytes ∷ frontier ∷ preview ∷ []) = some (record {
  schema_version = version;
  saving_enabled = saving == 1;
  connect_on_launch = launch == 1;
  min_bytes = min_bytes;
  frontier = frontier;
  preview_code_units = preview;
})
from_json _ = none

flag-eq : (b : Bool) → (flag b == 1) ≡ b
flag-eq true = refl
flag-eq false = refl

reads_back :
    (p : RuntimePreferences) (source : Str) → to_json p ≡ some source → from_json source ≡ some p
reads_back p source h =
    let same : p.schema_version
          ∷ flag p.saving_enabled
          ∷ flag p.connect_on_launch
          ∷ p.min_bytes
          ∷ p.frontier
          ∷ p.preview_code_units
          ∷ []
        ≡ source =
      cc in
    rw (← same) (rw (flag-eq p.saving_enabled, flag-eq p.connect_on_launch) refl)

abbrev legacy_file : Reading
legacy_file = contents (1 ∷ 1 ∷ 0 ∷ 4096 ∷ 2 ∷ 512 ∷ [])

legacy_opened : open_store from_json legacy_file ≡ ok current
unfolding open_store validate
legacy_opened = refl

open_store-IsValid_example : IsValid current
open_store-IsValid_example = open_store-IsValid from_json legacy_file current legacy_opened

apply-IsSettled_example :
    IsValid (apply to_json true (of_min_bytes 0) current).memory
    × IsSettled to_json (apply to_json true (of_min_bytes 0) current)
apply-IsSettled_example = apply-IsSettled to_json true (of_min_bytes 0) current current-IsValid

abbrev smaller : SettingsSnapshot
smaller = record {
  saving_enabled = true;
  connect_on_launch = false;
  min_bytes = 1000;
  frontier = 2;
  preview_code_units = 512;
}

set_min_bytes_run :
    (set_numeric_setting_offline to_json from_json true true legacy_file
      (codes "min-bytes")
      1000).shown
    ≡ some smaller
unfolding set_numeric_setting_offline open_store validate apply set_min_bytes str_eq snapshot
set_min_bytes_run = refl

set_numeric_setting_offline-open_store_example :
    (source : Str) × (q : RuntimePreferences) × ((set_numeric_setting_offline to_json from_json true
        true legacy_file
        (codes "min-bytes")
        1000).written
      ≡ some source)
    × (open_store from_json (contents source) ≡ ok q)
    × (snapshot q ≡ smaller)
    × IsValid q
set_numeric_setting_offline-open_store_example =
    set_numeric_setting_offline-open_store to_json from_json reads_back true true legacy_file
      (codes "min-bytes") 1000 smaller set_min_bytes_run
