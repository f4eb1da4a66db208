-- ===== src/Codex/Config/Restore.antt =====
-- src/modules/codex_integration/config.rs: disconnecting undoes connecting.
use tokensaver.Prelude.{
  ◌≡◌, refl, sym, ap, ◌∙◌, Bool, true, false, ◌&&◌, Option, none, some, if◌then◌else◌, Str, str_eq,
  str_eq-true, str_eq_refl, is_some,
}
use tokensaver.Codex.Toml.{Toml, TomlLaws, Seen, nothing, text, seen, seen-insert}
use tokensaver.Codex.Config.{
  OriginalOpenAiBaseUrl, CodexConfigSnapshot, ok, openai_base_url_key, realtime_call_base_url_key,
  realtime_ws_base_url_key, default_realtime_ws_base_url, original_of, install_if_absent, install,
  restore, validate_owned_values, restore_openai, remove_if_installed, validate_key,
  validate_installed,
}
use tokensaver.Codex.Config.Views.{
  view_of, original_of-view, &&-false, seen-install_if_absent, install_if_absent-some,
  seen-remove_if_installed, seen-restore_openai, validate_key-text,
}

-- A change under a key that hid nothing is undone by taking the key out.
undo_view :
    (ws call openai : Bool) (original before called joined pointed : Seen)
    → (ws ≡ true → nothing ≡ before)
    → (call ≡ true → nothing ≡ before)
    → (openai ≡ true → original ≡ before)
    → (if ws
        then nothing
        else if call
        then nothing
        else if openai
        then original
        else (if ws then joined else if call then called else if openai then pointed else before))
      ≡ before
undo_view true call openai original before called joined pointed h k l = h refl
undo_view false true openai original before called joined pointed h k l = k refl
undo_view false false true original before called joined pointed h k l = l refl
undo_view false false false original before called joined pointed h k l = refl

&&-parts : (a b : Bool) → (a && b) ≡ true → (a ≡ true) × (b ≡ true)
&&-parts true b h = (refl, h)
&&-parts false b h = cc

call_is_not_ws : str_eq realtime_call_base_url_key realtime_ws_base_url_key ≡ false
unfolding str_eq
call_is_not_ws = refl

ws_is_not_call : str_eq realtime_ws_base_url_key realtime_call_base_url_key ≡ false
unfolding str_eq
ws_is_not_call = refl

openai_is_not_ws : str_eq openai_base_url_key realtime_ws_base_url_key ≡ false
unfolding str_eq
openai_is_not_ws = refl

openai_is_not_call : str_eq openai_base_url_key realtime_call_base_url_key ≡ false
unfolding str_eq
openai_is_not_call = refl

ws_is_not_openai : str_eq realtime_ws_base_url_key openai_base_url_key ≡ false
unfolding str_eq
ws_is_not_openai = refl

call_is_not_openai : str_eq realtime_call_base_url_key openai_base_url_key ≡ false
unfolding str_eq
call_is_not_openai = refl

validate_installed_lem :
    (toml : Toml) (laws : TomlLaws toml) (document : toml.Document) (key expected : Str)
    (installed : Option Str)
    → (is_some installed ≡ true
        → (installed ≡ some expected) × (seen toml key document ≡ text expected))
    → validate_installed toml document key installed ≡ ok tt
unfolding validate_installed
validate_installed_lem toml laws document key expected none h = refl
validate_installed_lem toml laws document key expected (some x) h =
    let (same, there) = h refl in
    let e : x ≡ expected = cc in rw e (validate_key-text toml laws document key expected there)

module _ (toml : Toml) (laws : TomlLaws toml) (before : toml.Document)
    (original : OriginalOpenAiBaseUrl) (native_call url : Str) where
  open toml use {Document}

  abbrev pub pointed : Document
  pointed = toml.insert openai_base_url_key url before

  abbrev pub called : Document × Option Str
  called = install_if_absent toml pointed realtime_call_base_url_key native_call

  abbrev pub done : Document × Option Str
  done = install_if_absent toml called.0 realtime_ws_base_url_key default_realtime_ws_base_url

  abbrev pub snapshot : CodexConfigSnapshot
  snapshot = (install toml before original native_call url).1

  -- what is seen after the three installations
  seen-done :
      (key : Str)
      → seen toml key done.0 ≡ (
          if is_some done.1 && str_eq realtime_ws_base_url_key key
          then text default_realtime_ws_base_url
          else if is_some called.1 && str_eq realtime_call_base_url_key key
          then text native_call
          else if str_eq openai_base_url_key key
          then text url
          else seen toml key before)
  seen-done key =
      rw
        (seen-install_if_absent toml laws called.0 realtime_ws_base_url_key
          default_realtime_ws_base_url key)
        (rw (seen-install_if_absent toml laws pointed realtime_call_base_url_key native_call key)
          (rw (seen-insert toml laws openai_base_url_key key url before) refl))

  call_was_absent : is_some called.1 ≡ true → nothing ≡ seen toml realtime_call_base_url_key before
  call_was_absent h =
      let (_, absent) =
        install_if_absent-some toml laws pointed realtime_call_base_url_key native_call h in
      let same = seen-insert toml laws openai_base_url_key realtime_call_base_url_key url before in
      sym absent ∙ same ∙ rw openai_is_not_call refl

  ws_was_absent : is_some done.1 ≡ true → nothing ≡ seen toml realtime_ws_base_url_key before
  ws_was_absent h =
      let (_, absent) =
        install_if_absent-some toml laws called.0 realtime_ws_base_url_key
          default_realtime_ws_base_url h in
      let same : seen toml realtime_ws_base_url_key called.0
          ≡ seen toml realtime_ws_base_url_key pointed =
        rw
          (seen-install_if_absent toml laws pointed realtime_call_base_url_key native_call
            realtime_ws_base_url_key)
          (rw call_is_not_ws (rw (&&-false (is_some called.1)) refl)) in
      let below : seen toml realtime_ws_base_url_key pointed
          ≡ seen toml realtime_ws_base_url_key before =
        rw (seen-insert toml laws openai_base_url_key realtime_ws_base_url_key url before)
          (rw openai_is_not_ws refl) in
      sym absent ∙ same ∙ below

  hidden :
      (at key : Str) (installed : Bool)
      → (installed ≡ true → nothing ≡ seen toml at before)
      → (installed && str_eq at key) ≡ true
      → nothing ≡ seen toml key before
  hidden at key installed absent h =
      let (was, here) = &&-parts installed (str_eq at key) h in
      absent was ∙ ap (λ k. seen toml k before) (str_eq-true at key here)

  -- In the document that the restoration leaves, the same is seen as before the installations.
  pub restore-install :
      original_of (seen toml openai_base_url_key before) ≡ ok original
      → (read : Document) → ((key : Str) → seen toml key read ≡ seen toml key done.0)
      → (key : Str) → seen toml key (restore toml snapshot read) ≡ seen toml key before
  unfolding restore install
  restore-install found read same key =
      rw
        (seen-remove_if_installed toml laws realtime_ws_base_url_key key done.1 (
          remove_if_installed toml realtime_call_base_url_key called.1
            (restore_openai toml original read)))
        (rw
          (seen-remove_if_installed toml laws realtime_call_base_url_key key called.1
            (restore_openai toml original read))
          (rw (seen-restore_openai toml laws original key read) (
            rw (same key ∙ seen-done key) (
              undo_view (is_some done.1 && str_eq realtime_ws_base_url_key key)
                (is_some called.1 && str_eq realtime_call_base_url_key key)
                (str_eq openai_base_url_key key) (view_of original) (seen toml key before)
                (text native_call) (text default_realtime_ws_base_url) (text url)
                (λ h. hidden realtime_ws_base_url_key key (is_some done.1) ws_was_absent h)
                (λ h. hidden realtime_call_base_url_key key (is_some called.1) call_was_absent h)
                (λ h.
                  original_of-view _ original found
                  ∙ ap (λ k. seen toml k before) (str_eq-true openai_base_url_key key h))))))

  pointed_at :
      (read : Document)
      → ((key : Str) → seen toml key read ≡ seen toml key done.0)
      → validate_key toml read openai_base_url_key (some url) ≡ ok tt
  pointed_at read same =
      let there : seen toml openai_base_url_key read ≡ text url =
        rw (same openai_base_url_key ∙ seen-done openai_base_url_key) (
          rw (ws_is_not_openai, &&-false (is_some done.1), call_is_not_openai)
            (rw (&&-false (is_some called.1), str_eq_refl openai_base_url_key) refl)) in
      validate_key-text toml laws read openai_base_url_key url there

  call_installed :
      (read : Document)
      → ((key : Str) → seen toml key read ≡ seen toml key done.0)
      → validate_installed toml read realtime_call_base_url_key called.1 ≡ ok tt
  call_installed read same =
      validate_installed_lem toml laws read realtime_call_base_url_key native_call called.1 (λ h. (
        (install_if_absent-some toml laws pointed realtime_call_base_url_key native_call h).0,
        rw (same realtime_call_base_url_key ∙ seen-done realtime_call_base_url_key) (
            rw (ws_is_not_call, &&-false (is_some done.1), h)
              (rw (str_eq_refl realtime_call_base_url_key) refl)),
      ))

  ws_installed :
      (read : Document)
      → ((key : Str) → seen toml key read ≡ seen toml key done.0)
      → validate_installed toml read realtime_ws_base_url_key done.1 ≡ ok tt
  ws_installed read same =
      validate_installed_lem toml laws read realtime_ws_base_url_key default_realtime_ws_base_url
        done.1
        (λ h. (
          (install_if_absent-some toml laws called.0 realtime_ws_base_url_key
              default_realtime_ws_base_url h).0,
          rw (same realtime_ws_base_url_key ∙ seen-done realtime_ws_base_url_key)
              (rw h (rw (str_eq_refl realtime_ws_base_url_key) refl)),
        ))

  -- What was installed is recognised in a document in which the same is seen.
  pub validate-install :
      (read : Document)
      → ((key : Str) → seen toml key read ≡ seen toml key done.0)
      → validate_owned_values toml read snapshot ≡ ok tt
  unfolding validate_owned_values install
  validate-install read same =
      rw (pointed_at read same, validate_owned_values)
        (rw (call_installed read same) (ws_installed read same))
