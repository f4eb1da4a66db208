-- ===== src/Application/Desktop/RoundTrip.antt =====
-- src/application/desktop_runtime.rs: a connection and a disconnection on files that do not fail.
use tokensaver.Prelude.{
  ℕ, ◌≡◌, refl, ap, ◌∙◌, inl, inr, Bool, true, false, Option, none, some, List, [], ◌∷◌, Bool-cases,
  Str,
}
use tokensaver.Application.Desktop.{
  Controller, connect, disconnect, Operation, policy_from_preferences, proceed, or_before,
  preferences_failure, change_preferences, savings_failure, flush_persistent, established,
  prepare_and_open, connect_with, clear_preference, restored_codex, disconnect_active,
  disconnect_with, disconnect_internal,
}
use tokensaver.Codex.Toml.{Toml, TomlLaws}
use tokensaver.Codex.Config.{
  CodexConfigSnapshot, ok, validate_snapshot, connect_config_text, disconnect_config_text,
}
use tokensaver.Codex.Config.RoundTrip.{SameConfig, disconnect-connect}
use tokensaver.Codex.Transaction.{Machine, booted, head_answer}
use tokensaver.Application.Connection.Restart.{
  control_at, taken-url, prepare_run, disconnect_native_run,
}
use tokensaver.Codex.Transaction.Steps.{text_of_file}
use tokensaver.Runtime.Preferences.{RuntimePreferences}
use tokensaver.Runtime.Preferences.Laws.{IsValid, apply-connect_on_launch-valid}
use tokensaver.Runtime.Status
use tokensaver.Runtime.Status.{running, RuntimeStatus, CodexStatus, disconnected}
use tokensaver.Telemetry.Store.{PersistentSavings, flush}
use tokensaver.Transport.Admission.{begin_drain}
use tokensaver.Transport.Capability.{loopback_base_url, generate}

-- the controller, without a connection, on files that do not fail
abbrev pub idle_controller : Controller → Option Str → Controller
idle_controller c before = record c {
  connection = none;
  machine = booted (record { config = before; snapshot = none });
  answers = [];
}

-- what the two operations leave
pub record ConnectsAndDisconnects (toml : Toml) (before : Option Str)
    (connected_by disconnected_by : Operation) : Type 0 where
  pub connects : connected_by.1 ≡ none
  pub shown : connected_by.0.status.codex ≡ Status.connected
  pub disconnects : disconnected_by.1 ≡ none
  pub shown_after : disconnected_by.0.status.codex ≡ disconnected
  pub closed : disconnected_by.0.connection ≡ none
  pub restored : Str
  pub disk : disconnected_by.0.machine.disk ≡ record { config = some restored; snapshot = none }
  pub same : SameConfig toml (text_of_file before) restored

module _ (toml : Toml) (to_json : CodexConfigSnapshot → Option Str)
    (from_json : Str → Option CodexConfigSnapshot)
    (savings_to_json : PersistentSavings → Option Str) (bind : ℕ → Option ℕ) where
  abbrev wanting : Bool → RuntimePreferences → RuntimePreferences
  wanting wanted p = record p { connect_on_launch = wanted }

  flush-flushed :
      (c : Controller) (printed : Str)
      → c.answers ≡ []
      → savings_to_json c.durable_savings.state ≡ some printed
      → (flush_persistent toml to_json from_json savings_to_json bind c).1 ≡ none
  unfolding flush_persistent flush savings_failure head_answer
  flush-flushed c printed quiet prints = elim (Bool-cases c.durable_savings.dirty) [
    | inl dirty ↦ rw dirty (rw (prints, flush) (rw quiet refl))
    | inr clean ↦ rw clean refl
  ]

  -- what the files of Codex have gone through
  connected_machine : Option Str → Str → Str → Machine
  connected_machine before next text = record {
    disk = record { config = some next; snapshot = some text };
    answers = [];
    past =
        record { config = some next; snapshot = some text }
        ∷ record { config = before; snapshot = some text }
        ∷ [];
  }

  connected_controller :
      List ℕ → ℕ → Controller → Option Str → CodexConfigSnapshot → Str → Str → Str → Controller
  connected_controller random port c before taken next text on = record c {
    connection = some (record {
      snapshot = taken;
      control =
          control_at port (generate random) (policy_from_preferences (wanting true c.preferences));
    });
    status = record {
      service = running;
      codex = Status.connected;
      saving_enabled = c.preferences.saving_enabled;
      active_requests = 0;
      last_error = none;
    };
    preferences = wanting true c.preferences;
    saved_preferences = some on;
    machine = connected_machine before next text;
    answers = [];
  }

  connect_idle :
      (random : List ℕ) (port : ℕ) (c : Controller) (before : Option Str)
      (taken : CodexConfigSnapshot) (next text on : Str)
      → IsValid c.preferences
      → c.preferences_to_json (wanting true c.preferences) ≡ some on
      → bind 0 ≡ some port
      → connect_config_text toml (text_of_file before) (loopback_base_url port (generate random))
        ≡ ok (next, taken)
      → to_json taken ≡ some text
      → connect toml to_json from_json savings_to_json bind random (idle_controller c before)
        ≡ (connected_controller random port c before taken next text on, none)
  unfolding connect connect_with change_preferences head_answer or_before preferences_failure
      proceed prepare_and_open established connected_controller connected_machine
  connect_idle random port c before taken next text on valid turned_on bound made written =
      rw (apply-connect_on_launch-valid c.preferences_to_json true c.preferences on valid turned_on)
        (rw
          (prepare_run toml to_json from_json bind random port
            (policy_from_preferences (wanting true c.preferences)) before taken next text bound made
            written)
          refl)

  -- with the connection closed, before the flush
  closed_controller : Controller → Option Str → Str → Str → Str → Str → Controller
  unfolding connected_machine
  closed_controller c before next text restored off = record c {
    connection = none;
    status = record {
      service = running;
      codex = disconnected;
      saving_enabled = c.preferences.saving_enabled;
      active_requests = 0;
      last_error = none;
    };
    preferences = wanting false c.preferences;
    saved_preferences = some off;
    machine = record {
      disk = record { config = some restored; snapshot = none };
      answers = [];
      past =
          record { config = some restored; snapshot = none }
          ∷ record { config = some restored; snapshot = some text }
          ∷ (connected_machine before next text).past;
    };
    answers = [];
  }

  disconnect_connected :
      (random : List ℕ) (port : ℕ) (c : Controller) (before : Option Str)
      (taken : CodexConfigSnapshot) (next text on restored off : Str)
      → IsValid c.preferences
      → c.preferences_to_json (wanting false c.preferences) ≡ some off
      → from_json text ≡ some taken
      → validate_snapshot taken ≡ ok tt
      → disconnect_config_text toml next taken ≡ ok restored
      → disconnect toml to_json from_json savings_to_json bind
          (connected_controller random port c before taken next text on)
        ≡ flush_persistent toml to_json from_json savings_to_json bind
            (closed_controller c before next text restored off)
  unfolding disconnect disconnect_internal disconnect_with disconnect_active begin_drain
      connected_controller connected_machine closed_controller restored_codex clear_preference
      change_preferences head_answer or_before preferences_failure proceed
  disconnect_connected random port c before taken next text on restored off valid turned_off read
        fits taken_out =
      rw
        (disconnect_native_run toml to_json from_json taken restored text next
          (connected_machine before next text).past read fits taken_out)
        (rw
          (apply-connect_on_launch-valid c.preferences_to_json false (wanting true c.preferences)
            off valid turned_off)
          refl)

  -- Where no access of a file fails, the operating system gives a port, the configuration of Codex
  -- can be connected and the preferences are valid, connecting succeeds and shows Codex as
  -- connected; disconnecting then succeeds as well, shows it as disconnected, removes the snapshot
  -- and leaves a configuration in which every key reads as before. The codecs of the snapshot, of
  -- the savings and of the preferences write what they are given, and the snapshot is read back.
  pub disconnect-connect_desktop :
      (laws : TomlLaws toml) (random : List ℕ) (port : ℕ) (c : Controller) (before : Option Str)
      (taken : CodexConfigSnapshot) (next text printed on off : Str)
      → IsValid c.preferences
      → c.preferences_to_json (wanting true c.preferences) ≡ some on
      → c.preferences_to_json (wanting false c.preferences) ≡ some off
      → bind 0 ≡ some port
      → connect_config_text toml (text_of_file before) (loopback_base_url port (generate random))
        ≡ ok (next, taken)
      → to_json taken ≡ some text
      → from_json text ≡ some taken
      → savings_to_json c.durable_savings.state ≡ some printed
      → ConnectsAndDisconnects toml before
          (connect toml to_json from_json savings_to_json bind random (idle_controller c before))
          (disconnect toml to_json from_json savings_to_json bind
            (connect toml to_json from_json savings_to_json bind random
              (idle_controller c before)).0)
  unfolding flush_persistent connected_controller closed_controller
  disconnect-connect_desktop laws random port c before taken next text printed on off valid
        turned_on turned_off bound made written read prints =
      let url = loopback_base_url port (generate random) in
      let (_, fits, _) = taken-url toml (text_of_file before) url next taken made in
      let (_, (restored, taken_out, same)) =
        disconnect-connect toml laws (text_of_file before) url next taken made in
      let first =
        connect_idle random port c before taken next text on valid turned_on bound made written in
      let second =
        ap (λ op. disconnect toml to_json from_json savings_to_json bind op.0) first
        ∙ disconnect_connected random port c before taken next text on restored off valid turned_off
            read fits taken_out in
      record {
        connects = ap (λ op. op.1) first;
        shown = ap (λ op. op.0.status.codex) first;
        disconnects =
            ap (λ op. op.1) second
            ∙ flush-flushed (closed_controller c before next text restored off) printed refl prints;
        shown_after = ap (λ op. op.0.status.codex) second;
        closed = ap (λ op. op.0.connection) second;
        restored = restored;
        disk = ap (λ op. op.0.machine.disk) second;
        same = same;
      }
