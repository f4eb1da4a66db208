-- ===== src/Codex/Config/Views.antt =====
-- src/modules/codex_integration/config.rs: what is seen under a key after each change of a
-- document.
use tokensaver.Prelude.{
  ◌≡◌, refl, sym, inl, inr, Bool, true, false, ◌&&◌, Option, none, some, [], arith, if◌then◌else◌,
  Bool-cases, Option-cases, Str, str_eq, trim, str_eq-true, str_eq_refl, is_some,
}
use tokensaver.Codex.Toml.{
  Toml, TomlLaws, Seen, nothing, not_text, text, seen, seen-insert, seen-remove,
}
use tokensaver.Codex.Config.{
  OriginalOpenAiBaseUrl, absent, original_value, ok, openai_base_url_key, same_option, text_of,
  original_of, parse_document, install_if_absent, validate_key, restore_openai, remove_if_installed,
}

-- what the original value looks like
abbrev pub view_of : OriginalOpenAiBaseUrl → Seen
view_of absent = nothing
view_of (original_value url) = text url

pub original_of-view :
    (s : Seen) (original : OriginalOpenAiBaseUrl)
    → original_of s ≡ ok original
    → view_of original ≡ s
unfolding original_of
original_of-view nothing original h = ground arith
original_of-view (text url) original h = ground arith
original_of-view not_text original h = cc

pub same_option_refl : (o : Option Str) → same_option o o ≡ true
unfolding same_option
same_option_refl none = refl
same_option_refl (some s) = str_eq_refl s

pub &&-false : (b : Bool) → (b && false) ≡ false
&&-false true = refl
&&-false false = refl

module _ (toml : Toml) (laws : TomlLaws toml) where
  open toml use {Document, blank, parse, print, get, insert}

  -- A printed document is read back, and the same is seen in it.
  pub parse_document-print :
      (document : Document)
      → (read : Document) × (parse_document toml (print document) ≡ ok read)
        × ((key : Str) → seen toml key read ≡ seen toml key document)
  unfolding parse_document seen
  parse_document-print document = elim (Bool-cases (str_eq (trim (print document)) [])) [
    | inl empty ↦ (
      blank,
      rw (empty, parse_document),
      λ key.
          rw (laws.get-blank key, seen)
            (sym (laws.seen-print key document (str_eq-true _ _ empty))),
    )
    | inr full ↦
        let (read, parsed, same) = laws.parse-print document in
        (read, rw (full, parse_document) (rw parsed), same)
  ]

  pub seen-install_if_absent :
      (document : Document) (key installed other : Str)
      → seen toml other (install_if_absent toml document key installed).0 ≡ (
          if is_some (install_if_absent toml document key installed).1 && str_eq key other
          then text installed
          else seen toml other document)
  unfolding install_if_absent
  seen-install_if_absent document key installed other =
      elim (Bool-cases (is_some (get key document))) [
        | inl present ↦ rw present refl
        | inr missing ↦ rw missing (seen-insert toml laws key other installed document)
      ]

  -- A key that was installed was not there, and the installed text is what is returned.
  pub install_if_absent-some :
      (document : Document) (key installed : Str)
      → is_some (install_if_absent toml document key installed).1 ≡ true
      → ((install_if_absent toml document key installed).1 ≡ some installed)
        × (seen toml key document ≡ nothing)
  unfolding install_if_absent seen
  install_if_absent-some document key installed h = elim (Option-cases (get key document)) [
    | inl missing ↦ rw (missing, install_if_absent) (refl, rw (missing, seen))
    | inr (item, present) ↦ let bad = rw (present, install_if_absent) at h in cc
  ]

  pub seen-remove_if_installed :
      (key other : Str) (installed : Option Str) (document : Document)
      → seen toml other (remove_if_installed toml key installed document)
        ≡ (if is_some installed && str_eq key other then nothing else seen toml other document)
  unfolding remove_if_installed
  seen-remove_if_installed key other none document = refl
  seen-remove_if_installed key other (some _) document = seen-remove toml laws key other document

  pub seen-restore_openai :
      (original : OriginalOpenAiBaseUrl) (other : Str) (document : Document)
      → seen toml other (restore_openai toml original document)
        ≡ (if str_eq openai_base_url_key other then view_of original else seen toml other document)
  unfolding restore_openai
  seen-restore_openai absent other document =
      seen-remove toml laws openai_base_url_key other document
  seen-restore_openai (original_value url) other document =
      seen-insert toml laws openai_base_url_key other url document

  pub validate_key-text :
      (document : Document) (key expected : Str)
      → seen toml key document ≡ text expected
      → validate_key toml document key (some expected) ≡ ok tt
  unfolding validate_key text_of
  validate_key-text document key expected h =
      rw (h, validate_key) (rw (same_option_refl (some expected)))
