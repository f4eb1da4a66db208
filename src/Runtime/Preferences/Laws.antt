-- ===== src/Runtime/Preferences/Laws.antt =====
-- src/modules/runtime/preferences.rs: the preferences stay valid, in memory and in the file.
use mathlib.Core.Path.{subst, ap, sym}
use tokensaver.Prelude.{
  ℕ, ◌≤◌, ◌<◌, ◌≡◌, refl, ◌≢◌, ◌⊎◌, inl, inr, Bool, true, false, not, ◌||◌, Option, none, some,
  arith, ltb, ◌==◌, if◌then◌else◌, Option-cases, Str,
}
use tokensaver.Runtime.Preferences.{
  RuntimePreferences, Outcome, ok, err, Saved, contents, ToJson, FromJson, write_serialized,
  parse_preferences, SettingsSnapshot, snapshot, Offline, of_saving_enabled, of_connect_on_launch,
  of_min_bytes, of_frontier, of_preview_code_units, Reading, preferences_schema_version,
  in_preview_range, validate, check_schema, read_preferences, upgrade, open_store, save, refused,
  set_saving_enabled, set_connect_on_launch, set_min_bytes, set_frontier, set_preview_code_units,
  Setting, apply, legacy_schema_version, setting_of_key, report, set_opened,
  set_numeric_setting_offline,
}

abbrev pub IsValid : RuntimePreferences → Type 0
IsValid p =
    (p.schema_version ≡ preferences_schema_version)
    × (0 < p.min_bytes)
    × (p.frontier ≤ 256)
    × (64 ≤ p.preview_code_units)
    × (p.preview_code_units ≤ 16384)

-- Either the text of the preferences in memory was written and there is no error, or nothing was
-- written and there is one.
abbrev pub IsSettled : ToJson → Saved → Type 0
IsSettled to_json saved =
    ((saved.failure ≡ none)
      × ((source : Str) × (to_json saved.memory ≡ some source) × (saved.written ≡ some source)))
    ⊎ ((saved.failure ≢ none) × (saved.written ≡ none))

IsValid-validate : (p : RuntimePreferences) → IsValid p → validate p ≡ none
unfolding validate in_preview_range
IsValid-validate p h = ground arith

validate-IsValid :
    (p : RuntimePreferences)
    → validate p ≡ none
    → IsValid (record p { schema_version = preferences_schema_version })
unfolding validate in_preview_range
validate-IsValid p h = ground arith

upgrade-IsValid :
    (found : Outcome RuntimePreferences) (p : RuntimePreferences) → upgrade found ≡ ok p → IsValid p
unfolding upgrade
upgrade-IsValid (err e) p h = cc
upgrade-IsValid (ok q) p h = elim (Option-cases (validate q)) [
  | inl valid ↦
      let found : ok (record q { schema_version = preferences_schema_version }) ≡ ok p =
        rw (valid, upgrade) at h in
      let same : record q { schema_version = preferences_schema_version } ≡ p = cc in
      subst IsValid same (validate-IsValid q valid)
  | inr (e, bad) ↦ let failed : err e ≡ ok p = rw (bad, upgrade) at h in cc
]

upgrade-valid :
    (p : RuntimePreferences)
    → p.schema_version ≡ preferences_schema_version
    → validate p ≡ none
    → upgrade (ok p) ≡ ok p
unfolding upgrade
upgrade-valid p current valid =
    rw (valid, upgrade) (ap (λ v. ok (record p { schema_version = v })) (sym current))

write_serialized-IsSettled :
    (to_json : ToJson) (writes : Bool) (p : RuntimePreferences) (text : Option Str)
    → to_json p ≡ text
    → IsSettled to_json (write_serialized writes p text)
unfolding write_serialized
write_serialized-IsSettled to_json writes p none h = inr ((λ e. cc), refl)
write_serialized-IsSettled to_json true p (some source) h = inl (refl, (source, h, refl))
write_serialized-IsSettled to_json false p (some source) h = inr ((λ e. cc), refl)

save-IsSettled :
    (to_json : ToJson) (writes : Bool) (p : RuntimePreferences)
    → IsSettled to_json (save to_json writes p)
unfolding save
save-IsSettled to_json writes p = elim (Option-cases (validate p)) [
  | inl valid ↦ rw (valid, save) (write_serialized-IsSettled to_json writes p (to_json p) refl)
  | inr (e, bad) ↦ rw (bad, save) (inr ((λ h. cc), refl))
]

write_serialized-memory :
    (writes : Bool) (p : RuntimePreferences) (text : Option Str)
    → (write_serialized writes p text).memory ≡ p
unfolding write_serialized
write_serialized-memory writes p none = refl
write_serialized-memory true p (some source) = refl
write_serialized-memory false p (some source) = refl

save-memory :
    (to_json : ToJson) (writes : Bool) (p : RuntimePreferences) → (save to_json writes p).memory ≡ p
unfolding save
save-memory to_json writes p = elim (Option-cases (validate p)) [
  | inl valid ↦ rw (valid, save) (write_serialized-memory writes p (to_json p))
  | inr (e, bad) ↦ rw (bad, save) refl
]

pub apply-saving_enabled-memory :
    (to_json : ToJson) (writes : Bool) (enabled : Bool) (p : RuntimePreferences)
    → (apply to_json writes (of_saving_enabled enabled) p).memory
      ≡ record p { saving_enabled = enabled }
unfolding apply set_saving_enabled
apply-saving_enabled-memory to_json writes enabled p =
    save-memory to_json writes (record p { saving_enabled = enabled })

pub apply-connect_on_launch-valid :
    (to_json : ToJson) (wanted : Bool) (p : RuntimePreferences) (source : Str)
    → IsValid p
    → to_json (record p { connect_on_launch = wanted }) ≡ some source
    → apply to_json true (of_connect_on_launch wanted) p ≡ record {
      memory = record p { connect_on_launch = wanted };
      written = some source;
      failure = none;
    }
unfolding apply set_connect_on_launch write_serialized
apply-connect_on_launch-valid to_json wanted p source h printed =
    rw (IsValid-validate (record p { connect_on_launch = wanted }) h, save)
      (rw (printed, write_serialized) refl)

-- Every preference that is opened is valid and of the current schema, whatever the file holds.
pub open_store-IsValid :
    (from_json : FromJson) (reading : Reading) (p : RuntimePreferences)
    → open_store from_json reading ≡ ok p
    → IsValid p
unfolding open_store
open_store-IsValid from_json reading p h = upgrade-IsValid (read_preferences from_json reading) p h

-- Valid preferences that are read back from the file are opened unchanged.
pub open_store-contents :
    (from_json : FromJson) (source : Str) (p : RuntimePreferences)
    → from_json source ≡ some p
    → IsValid p
    → open_store from_json (contents source) ≡ ok p
unfolding open_store read_preferences parse_preferences check_schema
open_store-contents from_json source p read h =
    let (current, _, _, _, _) = h in
    let valid = IsValid-validate p h in
    let known : (p.schema_version == preferences_schema_version
          || p.schema_version == legacy_schema_version)
        ≡ true =
      ground arith in
    rw (read, parse_preferences) (rw known (upgrade-valid p current valid))

apply-memory :
    (to_json : ToJson) (writes : Bool) (setting : Setting) (p : RuntimePreferences)
    → IsValid p
    → IsValid (apply to_json writes setting p).memory
unfolding apply set_saving_enabled set_connect_on_launch set_min_bytes set_frontier
    set_preview_code_units refused in_preview_range
apply-memory to_json writes (of_saving_enabled b) p h =
    rw (save-memory to_json writes (record p { saving_enabled = b })) h
apply-memory to_json writes (of_connect_on_launch b) p h =
    rw (save-memory to_json writes (record p { connect_on_launch = b })) h
apply-memory to_json writes (of_min_bytes n) p h = ground arith
apply-memory to_json writes (of_frontier n) p h = ground arith
apply-memory to_json writes (of_preview_code_units n) p h = ground arith

IsSettled-if :
    (to_json : ToJson) (b : Bool) (p q : Saved)
    → IsSettled to_json p
    → IsSettled to_json q
    → IsSettled to_json (if b then p else q)
IsSettled-if to_json true p q h k = h
IsSettled-if to_json false p q h k = k

refused-IsSettled :
    (to_json : ToJson) (p : RuntimePreferences) (name : Str) → IsSettled to_json (refused p name)
unfolding refused
refused-IsSettled to_json p name = inr ((λ h. cc), refl)

-- After any setter on valid preferences the preferences in memory are valid, and either their text
-- was written and there is no error, or there is an error and nothing was written.
pub apply-IsSettled :
    (to_json : ToJson) (writes : Bool) (setting : Setting) (p : RuntimePreferences)
    → IsValid p
    → IsValid (apply to_json writes setting p).memory
      × IsSettled to_json (apply to_json writes setting p)
unfolding apply set_saving_enabled set_connect_on_launch set_min_bytes set_frontier
    set_preview_code_units
apply-IsSettled to_json writes (of_saving_enabled b) p h = (
  apply-memory to_json writes (of_saving_enabled b) p h,
  save-IsSettled to_json writes (record p { saving_enabled = b }),
)
apply-IsSettled to_json writes (of_connect_on_launch b) p h = (
  apply-memory to_json writes (of_connect_on_launch b) p h,
  save-IsSettled to_json writes (record p { connect_on_launch = b }),
)
apply-IsSettled to_json writes (of_min_bytes n) p h = (
  apply-memory to_json writes (of_min_bytes n) p h,
  IsSettled-if to_json (n == 0) _ _ (refused-IsSettled to_json p _)
      (save-IsSettled to_json writes (record p { min_bytes = n })),
)
apply-IsSettled to_json writes (of_frontier n) p h = (
  apply-memory to_json writes (of_frontier n) p h,
  IsSettled-if to_json (ltb 256 n) _ _ (refused-IsSettled to_json p _)
      (save-IsSettled to_json writes (record p { frontier = n })),
)
apply-IsSettled to_json writes (of_preview_code_units n) p h = (
  apply-memory to_json writes (of_preview_code_units n) p h,
  IsSettled-if to_json (not (in_preview_range n)) _ _ (refused-IsSettled to_json p _)
      (save-IsSettled to_json writes (record p { preview_code_units = n })),
)

-- what was reported was written, as the text of valid preferences
record IsReported (to_json : ToJson) (offline : Offline) (shown : SettingsSnapshot) : Type 0 where
  preferences : RuntimePreferences
  source : Str
  is_valid : IsValid preferences
  printed : to_json preferences ≡ some source
  written : offline.written ≡ some source
  seen : snapshot preferences ≡ shown

report-IsReported :
    (to_json : ToJson) (saved : Saved) (shown : SettingsSnapshot)
    → IsValid saved.memory
    → IsSettled to_json saved
    → (report saved).shown ≡ some shown
    → IsReported to_json (report saved) shown
unfolding report
report-IsReported to_json saved shown memory settled h = elim (Option-cases saved.failure) [
  | inl fine ↦
      let found : some (snapshot saved.memory) ≡ some shown = rw (fine, report) at h in
      elim settled [
        | inl (_, (source, printed, written)) ↦ record {
          preferences = saved.memory;
          source = source;
          is_valid = memory;
          printed = printed;
          written = rw (fine, report) written;
          seen = cc;
        }
        | inr (bad, _) ↦ absurd (bad fine)
      ]
  | inr (e, failed) ↦ let found : none ≡ some shown = rw (failed, report) at h in cc
]

set_opened-IsReported :
    (to_json : ToJson) (writes : Bool) (key : Str) (setting : Option Setting)
    (found : Outcome RuntimePreferences) (shown : SettingsSnapshot)
    → ((p : RuntimePreferences) → found ≡ ok p → IsValid p)
    → (set_opened to_json writes key setting found).shown ≡ some shown
    → IsReported to_json (set_opened to_json writes key setting found) shown
unfolding set_opened
set_opened-IsReported to_json writes key setting (err e) shown valid h = cc
set_opened-IsReported to_json writes key none (ok p) shown valid h = cc
set_opened-IsReported to_json writes key (some setting) (ok p) shown valid h =
    let (memory, settled) = apply-IsSettled to_json writes setting p (valid p refl) in
    report-IsReported to_json (apply to_json writes setting p) shown memory settled h

-- Where the offline setter reports settings, it wrote a text, and the file with that text opens as
-- valid preferences with just these settings, for a codec that reads back what it writes.
pub set_numeric_setting_offline-open_store :
    (to_json : ToJson) (from_json : FromJson)
    (reads_back : (p : RuntimePreferences) (source : Str)
      → to_json p ≡ some source
      → from_json source ≡ some p)
    (directory writes : Bool) (reading : Reading) (key : Str) (n : ℕ) (shown : SettingsSnapshot)
    → (set_numeric_setting_offline to_json from_json directory writes reading key n).shown
      ≡ some shown
    → (source : Str) × (q : RuntimePreferences) × ((set_numeric_setting_offline to_json from_json
          directory writes reading key n).written
        ≡ some source)
      × (open_store from_json (contents source) ≡ ok q)
      × (snapshot q ≡ shown)
      × IsValid q
unfolding set_numeric_setting_offline
set_numeric_setting_offline-open_store to_json from_json reads_back false writes reading key n shown
      h =
    cc
set_numeric_setting_offline-open_store to_json from_json reads_back true writes reading key n shown
      h =
    let r =
      set_opened-IsReported to_json writes key (setting_of_key key n) (open_store from_json reading)
        shown (open_store-IsValid from_json reading) h in
    (
      r.source,
      r.preferences,
      r.written,
      open_store-contents from_json r.source r.preferences
          (reads_back r.preferences r.source r.printed) r.is_valid,
      r.seen,
      r.is_valid,
    )
