-- ===== src/Runtime/Preferences.antt =====
-- src/modules/runtime/preferences.rs and the offline setter of src/application/settings.rs: the
-- operator's preferences, validated when they are read and before they are written. What the file
-- system answers is an argument, and the JSON codec of serde_json is two functions.
pub mod Laws
use tokensaver.Prelude.{
  ℕ, ◌*◌, Bool, false, not, ◌&&◌, ◌||◌, Option, none, some, ltb, leb, ◌==◌, if◌then◌else◌, Str,
  codes, str_eq,
}

pub record RuntimePreferences : Type 0 where
  pub schema_version : ℕ
  pub saving_enabled : Bool
  pub connect_on_launch : Bool
  pub min_bytes : ℕ
  pub frontier : ℕ
  pub preview_code_units : ℕ

pub data RuntimePreferencesError : Type 0 where
  io : RuntimePreferencesError
  invalid_json : RuntimePreferencesError
  unsupported_schema : ℕ → RuntimePreferencesError
  invalid_value : Str → RuntimePreferencesError

pub data Outcome (A : Type 0) : Type 0 where
  ok : A → Outcome A
  err : RuntimePreferencesError → Outcome A

-- What reading the file comes to: no such file, another failure, or its text.
pub data Reading : Type 0 where
  not_found unreadable : Reading
  contents : Str → Reading

-- serde_json's functions for the preferences
abbrev pub ToJson : Type 0
ToJson = RuntimePreferences → Option Str

abbrev pub FromJson : Type 0
FromJson = Str → Option RuntimePreferences

abbrev pub preferences_schema_version : ℕ
preferences_schema_version = 2

abbrev pub legacy_schema_version : ℕ
legacy_schema_version = 1

abbrev pub default_min_bytes : ℕ
default_min_bytes = 32 * 1024

abbrev pub default_frontier : ℕ
default_frontier = 4

abbrev pub default_preview_code_units : ℕ
default_preview_code_units = 1024

-- `RuntimePreferences::default`
abbrev pub default_preferences : RuntimePreferences
default_preferences = record {
  schema_version = preferences_schema_version;
  saving_enabled = false;
  connect_on_launch = false;
  min_bytes = default_min_bytes;
  frontier = default_frontier;
  preview_code_units = default_preview_code_units;
}

-- a preview size that is within the limits
in_preview_range : ℕ → Bool
in_preview_range n = leb 64 n && leb n 16384

unfoldable pub validate : RuntimePreferences → Option RuntimePreferencesError
unfolding in_preview_range
validate preferences =
    if preferences.min_bytes == 0
    then some (invalid_value (codes "min_bytes must be greater than zero"))
    else if ltb 256 preferences.frontier
    then some (invalid_value (codes "frontier must be <= 256"))
    else if not (in_preview_range preferences.preview_code_units)
    then some (invalid_value (codes "preview_code_units must be between 64 and 16384"))
    else none

check_schema : RuntimePreferences → Outcome RuntimePreferences
check_schema preferences =
    if preferences.schema_version == preferences_schema_version
      || preferences.schema_version == legacy_schema_version
    then ok preferences
    else err (unsupported_schema preferences.schema_version)

parse_preferences : Option RuntimePreferences → Outcome RuntimePreferences
unfolding check_schema
parse_preferences none = err invalid_json
parse_preferences (some preferences) = check_schema preferences

read_preferences : FromJson → Reading → Outcome RuntimePreferences
unfolding parse_preferences
read_preferences from_json not_found = ok default_preferences
read_preferences from_json unreadable = err io
read_preferences from_json (contents source) = parse_preferences (from_json source)

upgrade : Outcome RuntimePreferences → Outcome RuntimePreferences
upgrade (err e) = err e
upgrade (ok preferences) = elim (validate preferences) [
  | some e ↦ err e
  | none ↦ ok (record preferences { schema_version = preferences_schema_version })
]

-- `RuntimePreferencesStore::open`; the store is the preferences and the file that they came from
unfoldable pub open_store : FromJson → Reading → Outcome RuntimePreferences
unfolding read_preferences upgrade
open_store from_json reading = upgrade (read_preferences from_json reading)

-- What a setter leaves: the preferences in memory, the text it wrote to the file, and its result.
pub record Saved : Type 0 where
  pub memory : RuntimePreferences
  pub written : Option Str
  pub failure : Option RuntimePreferencesError

-- the end of `save`: `atomic_write_private` of the text, if there is one
write_serialized : Bool → RuntimePreferences → Option Str → Saved
write_serialized writes preferences none = record {
  memory = preferences;
  written = none;
  failure = some invalid_json;
}
write_serialized writes preferences (some serialized) =
    if writes
    then record { memory = preferences; written = some serialized; failure = none }
    else record { memory = preferences; written = none; failure = some io }

-- `save`, where `writes` is whether the file system takes the write
save : ToJson → Bool → RuntimePreferences → Saved
unfolding write_serialized
save to_json writes preferences = elim (validate preferences) [
  | some e ↦ record { memory = preferences; written = none; failure = some e }
  | none ↦ write_serialized writes preferences (to_json preferences)
]

-- an error that is returned before anything changes
refused : RuntimePreferences → Str → Saved
refused preferences name = record {
  memory = preferences;
  written = none;
  failure = some (invalid_value name);
}

unfoldable pub set_saving_enabled : ToJson → Bool → Bool → RuntimePreferences → Saved
unfolding save
set_saving_enabled to_json writes enabled preferences =
    save to_json writes (record preferences { saving_enabled = enabled })

unfoldable pub set_connect_on_launch : ToJson → Bool → Bool → RuntimePreferences → Saved
unfolding save
set_connect_on_launch to_json writes enabled preferences =
    save to_json writes (record preferences { connect_on_launch = enabled })

unfoldable pub set_min_bytes : ToJson → Bool → ℕ → RuntimePreferences → Saved
unfolding save refused
set_min_bytes to_json writes min_bytes preferences =
    if min_bytes == 0
    then refused preferences (codes "min_bytes must be greater than zero")
    else save to_json writes (record preferences { min_bytes = min_bytes })

unfoldable pub set_frontier : ToJson → Bool → ℕ → RuntimePreferences → Saved
unfolding save refused
set_frontier to_json writes frontier preferences =
    if ltb 256 frontier
    then refused preferences (codes "frontier must be <= 256")
    else save to_json writes (record preferences { frontier = frontier })

unfoldable pub set_preview_code_units : ToJson → Bool → ℕ → RuntimePreferences → Saved
unfolding save refused in_preview_range
set_preview_code_units to_json writes preview_code_units preferences =
    if not (in_preview_range preview_code_units)
    then refused preferences (codes "preview_code_units must be between 64 and 16384")
    else save to_json writes (record preferences { preview_code_units = preview_code_units })

-- The operations of the store.
pub data Setting : Type 0 where
  of_saving_enabled of_connect_on_launch : Bool → Setting
  of_min_bytes of_frontier of_preview_code_units : ℕ → Setting

unfoldable pub apply : ToJson → Bool → Setting → RuntimePreferences → Saved
apply to_json writes (of_saving_enabled enabled) = set_saving_enabled to_json writes enabled
apply to_json writes (of_connect_on_launch enabled) = set_connect_on_launch to_json writes enabled
apply to_json writes (of_min_bytes n) = set_min_bytes to_json writes n
apply to_json writes (of_frontier n) = set_frontier to_json writes n
apply to_json writes (of_preview_code_units n) = set_preview_code_units to_json writes n

-- `SettingsSnapshot` of src/application/settings.rs
pub record SettingsSnapshot : Type 0 where
  pub saving_enabled : Bool
  pub connect_on_launch : Bool
  pub min_bytes : ℕ
  pub frontier : ℕ
  pub preview_code_units : ℕ

unfoldable pub snapshot : RuntimePreferences → SettingsSnapshot
snapshot preferences = record {
  saving_enabled = preferences.saving_enabled;
  connect_on_launch = preferences.connect_on_launch;
  min_bytes = preferences.min_bytes;
  frontier = preferences.frontier;
  preview_code_units = preferences.preview_code_units;
}

-- the error of `set_numeric_setting_offline`
pub data SettingsError : Type 0 where
  settings_io : SettingsError
  preferences_error : RuntimePreferencesError → SettingsError
  unknown_key : Str → SettingsError

setting_of_key : Str → ℕ → Option Setting
setting_of_key key n =
    if str_eq key (codes "min-bytes")
    then some (of_min_bytes n)
    else if str_eq key (codes "frontier")
    then some (of_frontier n)
    else if str_eq key (codes "preview-code-units")
    then some (of_preview_code_units n)
    else none

-- What the offline setter leaves: the text it wrote, and the snapshot or the error.
pub record Offline : Type 0 where
  pub written : Option Str
  pub failure : Option SettingsError
  pub shown : Option SettingsSnapshot

abbrev refuse : SettingsError → Offline
refuse e = record { written = none; failure = some e; shown = none }

report : Saved → Offline
report saved = elim saved.failure [
  | some e ↦ record { written = saved.written; failure = some (preferences_error e); shown = none }
  | none ↦ record { written = saved.written; failure = none; shown = some (snapshot saved.memory) }
]

set_opened : ToJson → Bool → Str → Option Setting → Outcome RuntimePreferences → Offline
unfolding report
set_opened to_json writes key setting (err e) = refuse (preferences_error e)
set_opened to_json writes key none (ok preferences) = refuse (unknown_key key)
set_opened to_json writes key (some setting) (ok preferences) =
    report (apply to_json writes setting preferences)

-- `directory` is whether the data directory is there or can be made
unfoldable pub set_numeric_setting_offline :
    ToJson → FromJson → Bool → Bool → Reading → Str → ℕ → Offline
unfolding set_opened setting_of_key
set_numeric_setting_offline to_json from_json directory writes reading key n =
    if directory
    then set_opened to_json writes key (setting_of_key key n) (open_store from_json reading)
    else refuse settings_io
