-- ===== src/Application/Desktop/Laws.antt =====
-- src/application/desktop_runtime.rs: what stays true of the controller while its operations run.
use tokensaver.Prelude.{
  ℕ, ◌≡◌, refl, ap, inl, inr, Bool, true, false, Option, none, some, List, arith, ltb, Bool-cases,
  Option-cases, Str,
}
use tokensaver.Application.Connection.{ActiveConnection, Connecting, ready, refused}
use tokensaver.Application.Desktop.{
  Controller, Operation, proceed, change_preferences, update_status, with_server, set_enabled,
  set_saving_enabled, ensure_disconnected_for_policy_change, policy_from_preferences, set_saving_on,
  idle_status, flush_persistent, refresh_active, refresh_with, refresh_connection_health,
  established, prepare_and_open, connect_with, clear_preference, disconnect_idle, restored_codex,
  disconnect_active, disconnect_with,
}
use tokensaver.Runtime.Preferences.{
  RuntimePreferences, Setting, of_saving_enabled, of_connect_on_launch,
}
use tokensaver.Runtime.Preferences.Laws.{IsValid, apply-IsSettled, apply-saving_enabled-memory}
use tokensaver.Transport.Admission.{begin_drain, resume_accepting}
use tokensaver.Codex.Toml.{Toml}
use tokensaver.Codex.Config.{CodexConfigSnapshot}
use tokensaver.Codex.Transaction.{head_answer}
use tokensaver.Telemetry.Store.{PersistentSavings}
use tokensaver.Application.Connection.Bound.{IsPrepared, prepare-IsPrepared}
use tokensaver.Transport.Admission.Laws.{IsAccounted}

-- the server admits requests, its counter is that of its guards, and its limits are those of the
-- preferences
pub record IsServing (p : RuntimePreferences) (active : ActiveConnection) : Type 0 where
  pub accepts : active.control.server.draining ≡ false
  pub accounted : IsAccounted active.control.server
  pub min_bytes : active.control.aging_policy.min_bytes ≡ p.min_bytes
  pub frontier : active.control.aging_policy.frontier ≡ p.frontier
  pub preview : active.control.aging_policy.preview_code_units ≡ p.preview_code_units

abbrev pub Serves : RuntimePreferences → Option ActiveConnection → Type 0
Serves p none = Unit
Serves p (some active) = IsServing p active

abbrev pub IsConsistent : Controller → Type 0
IsConsistent c = IsValid c.preferences × Serves c.preferences c.connection

-- without a connection
abbrev IsIdle : Controller → Type 0
IsIdle c = IsValid c.preferences × (c.connection ≡ none)

pub IsIdle-IsConsistent : (c : Controller) → IsIdle c → IsConsistent c
IsIdle-IsConsistent c (valid, idle) = (valid, rw idle tt)

pub proceed-keeps :
    (P Q : Controller → Type 0) (op : Operation) (k : Controller → Operation)
    → P op.0
    → ((c : Controller) → P c → Q c)
    → ((c : Controller) → P c → Q (k c).0)
    → Q (proceed op k).0
unfolding proceed
proceed-keeps P Q (c, none) k h stop go = go c h
proceed-keeps P Q (c, some e) k h stop go = stop c h

change_preferences-IsIdle :
    (setting : Setting) (c : Controller) → IsIdle c → IsIdle (change_preferences setting c).0
unfolding change_preferences
change_preferences-IsIdle setting c (valid, idle) =
    ((apply-IsSettled _ _ setting c.preferences valid).0, idle)

-- a policy setter acts on a controller without a connection, and on no other
pub policy_setter-IsConsistent :
    (setting : Setting) (c : Controller)
    → IsConsistent c
    → IsConsistent
        (proceed (c, ensure_disconnected_for_policy_change c) (change_preferences setting)).0
unfolding proceed ensure_disconnected_for_policy_change
policy_setter-IsConsistent setting c h = elim (Option-cases c.connection) [
  | inl idle ↦
      rw (idle, proceed)
        (IsIdle-IsConsistent (change_preferences setting c).0
          (change_preferences-IsIdle setting c (h.0, idle)))
  | inr (active, open_one) ↦ rw (open_one, proceed) h
]

Serves-saving :
    (p : RuntimePreferences) (enabled : Bool) (connection : Option ActiveConnection)
    → Serves p connection
    → Serves (record p { saving_enabled = enabled }) connection
Serves-saving p enabled none h = tt
Serves-saving p enabled (some active) h = record {
  accepts = h.accepts;
  accounted = h.accounted;
  min_bytes = h.min_bytes;
  frontier = h.frontier;
  preview = h.preview;
}

set_saving_on-Serves :
    (p : RuntimePreferences) (enabled : Bool) (connection : Option ActiveConnection)
    → Serves p connection
    → Serves p (set_saving_on enabled connection)
unfolding set_saving_on set_enabled
set_saving_on-Serves p enabled none h = tt
set_saving_on-Serves p enabled (some active) h = record {
  accepts = h.accepts;
  accounted = h.accounted;
  min_bytes = h.min_bytes;
  frontier = h.frontier;
  preview = h.preview;
}

saving_changed-IsConsistent :
    (enabled : Bool) (c : Controller)
    → IsConsistent c
    → IsConsistent (change_preferences (of_saving_enabled enabled) c).0
unfolding change_preferences
saving_changed-IsConsistent enabled c (valid, serves) =
    let setting = of_saving_enabled enabled in
    (
      (apply-IsSettled _ _ setting c.preferences valid).0,
      rw
          (apply-saving_enabled-memory c.preferences_to_json (head_answer c.answers) enabled
            c.preferences)
          (Serves-saving c.preferences enabled c.connection serves),
    )

pub set_saving_enabled-IsConsistent :
    (enabled : Bool) (c : Controller)
    → IsConsistent c
    → IsConsistent (set_saving_enabled enabled c).0
unfolding set_saving_enabled
set_saving_enabled-IsConsistent enabled c h =
    proceed-keeps IsConsistent IsConsistent (change_preferences (of_saving_enabled enabled) c) _
      (saving_changed-IsConsistent enabled c h) (λ c k. k)
      (λ c (valid, serves). (valid, set_saving_on-Serves c.preferences enabled c.connection serves))

module _ (toml : Toml) (to_json : CodexConfigSnapshot → Option Str)
    (from_json : Str → Option CodexConfigSnapshot)
    (savings_to_json : PersistentSavings → Option Str) (bind : ℕ → Option ℕ) where
  flush-IsIdle :
      (c : Controller)
      → IsIdle c
      → IsIdle (flush_persistent toml to_json from_json savings_to_json bind c).0
  unfolding flush_persistent
  flush-IsIdle c h = h

  pub flush-IsConsistent :
      (c : Controller)
      → IsConsistent c
      → IsConsistent (flush_persistent toml to_json from_json savings_to_json bind c).0
  unfolding flush_persistent
  flush-IsConsistent c h = h

  pub refresh-IsConsistent :
      (connection : Option ActiveConnection) (c : Controller)
      → IsConsistent c
      → IsConsistent (refresh_with toml to_json from_json savings_to_json bind connection c)
  unfolding refresh_with refresh_active
  refresh-IsConsistent none c h = h
  refresh-IsConsistent (some active) c h = h

  clear-IsIdle :
      (clear : Bool) (c : Controller)
      → IsIdle c
      → IsIdle (clear_preference toml to_json from_json savings_to_json bind clear c).0
  unfolding clear_preference
  clear-IsIdle true c h = change_preferences-IsIdle (of_connect_on_launch false) c h
  clear-IsIdle false c h = h

  disconnect_idle-IsConsistent :
      (clear : Bool) (c : Controller)
      → IsIdle c
      → IsConsistent (disconnect_idle toml to_json from_json savings_to_json bind clear c).0
  unfolding disconnect_idle
  disconnect_idle-IsConsistent clear c h =
      proceed-keeps IsIdle IsConsistent
        (clear_preference toml to_json from_json savings_to_json bind clear c) _
        (clear-IsIdle clear c h) IsIdle-IsConsistent
        (λ c k. flush-IsConsistent (update_status idle_status c) (IsIdle-IsConsistent c k))

  pub resumed-IsServing :
      (p : RuntimePreferences) (active : ActiveConnection)
      → IsServing p active
      → IsServing p (
          with_server resume_accepting
            (with_server (λ _. (begin_drain active.control.server).0) active))
  unfolding with_server resume_accepting begin_drain
  resumed-IsServing p active h = record {
    accepts = refl;
    accounted = h.accounted;
    min_bytes = h.min_bytes;
    frontier = h.frontier;
    preview = h.preview;
  }

  restored-IsConsistent :
      (clear : Bool) (active : ActiveConnection) (result : Connecting CodexConfigSnapshot)
      (c : Controller)
      → IsValid c.preferences
      → IsServing c.preferences active
      → IsConsistent
          (restored_codex toml to_json from_json savings_to_json bind clear
            (with_server (λ _. (begin_drain active.control.server).0) active)
            result
            c).0
  unfolding restored_codex
  restored-IsConsistent clear active (refused e) c valid h =
      (valid, resumed-IsServing c.preferences active h)
  restored-IsConsistent clear active (ready _) c valid h =
      let closed = record c { connection = none } in
      proceed-keeps IsIdle IsConsistent
        (clear_preference toml to_json from_json savings_to_json bind clear closed) _
        (clear-IsIdle clear closed (valid, refl)) IsIdle-IsConsistent
        (λ c k. flush-IsConsistent _ (IsIdle-IsConsistent c k))

  pub disconnect_with-IsConsistent :
      (clear : Bool) (connection : Option ActiveConnection) (c : Controller)
      → c.connection ≡ connection
      → IsConsistent c
      → IsConsistent
          (disconnect_with toml to_json from_json savings_to_json bind clear connection c).0
  unfolding disconnect_with disconnect_active
  disconnect_with-IsConsistent clear none c e (valid, serves) =
      disconnect_idle-IsConsistent clear c (valid, e)
  disconnect_with-IsConsistent clear (some active) c e (valid, serves) =
      let serving : IsServing c.preferences active = rw e at serves in
      let busy = ltb 0 (begin_drain active.control.server).1 in
      elim (Bool-cases busy) [
        | inl some_left ↦ rw some_left (valid, resumed-IsServing c.preferences active serving)
        | inr none_left ↦ rw none_left (restored-IsConsistent clear active _ _ valid serving)
      ]

  established-IsConsistent :
      (c : Controller) (result : Connecting ActiveConnection)
      → IsIdle c
      → IsPrepared (policy_from_preferences c.preferences) result
      → IsConsistent (established toml to_json from_json savings_to_json bind result c).0
  unfolding established policy_from_preferences
  established-IsConsistent c (refused e) h k = IsIdle-IsConsistent c h
  established-IsConsistent c (ready active) (valid, idle) (server, policy) = (
    valid,
    record {
      accepts = ap (λ s. s.draining) server;
      accounted = rw server (refl, omega arith);
      min_bytes = ap (λ a. a.min_bytes) policy;
      frontier = ap (λ a. a.frontier) policy;
      preview = ap (λ a. a.preview_code_units) policy;
    },
  )

  pub connect_with-IsConsistent :
      (random : List ℕ) (connection : Option ActiveConnection) (c : Controller)
      → c.connection ≡ connection
      → IsConsistent c
      → IsConsistent
          (connect_with toml to_json from_json savings_to_json bind random connection c).0
  unfolding connect_with prepare_and_open refresh_connection_health
  connect_with-IsConsistent random (some active) c e h = refresh-IsConsistent c.connection c h
  connect_with-IsConsistent random none c e (valid, serves) =
      proceed-keeps IsIdle IsConsistent (change_preferences (of_connect_on_launch true) c) _
        (change_preferences-IsIdle (of_connect_on_launch true) c (valid, e)) IsIdle-IsConsistent
        (λ c k. established-IsConsistent _ _ k (
          prepare-IsPrepared toml to_json from_json bind random 0
            (policy_from_preferences c.preferences) c.machine))
