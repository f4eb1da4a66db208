-- ===== src/Application/Control/Laws.antt =====
-- src/application/control.rs: a command of the control socket as what the controller does.
use mathlib.Core.Path.{subst}
use tokensaver.Prelude.{
  ℕ, min, u64_max, ◌≤◌, ◌≡◌, true, false, refl, sym, ◌∙◌, arith, inl, inr, Option, none, some, List,
  [], ◌∷◌, if◌then◌else◌, Bool-cases, Str, codes, str_eq,
}
use tokensaver.Application.Control.{
  ControlRequest, status, connect_codex, disconnect_codex, stats, config_show, saving, config_set,
  handle_request, dispatch, respond, ControlSnapshot, snapshot_to_control, response_of,
  config_set_for, Texts, ControlResponse, to_string, redacted_notice,
}
use tokensaver.Application.Connection.{ActiveConnection}
use tokensaver.Security.Hidden.{IsHidden, redact_local_secrets-IsHidden}
use tokensaver.Security.Laws.{Redacts}
use tokensaver.Transport.Admission.{max_concurrent_requests}
use tokensaver.Transport.Admission.Laws.{count_guards}
use tokensaver.Application.Desktop.{
  Controller, DesktopRuntimeError, Notice, refresh_with, refresh_active, refresh_connection_health,
  connection_health,
}
use tokensaver.Application.Desktop.View.{view, savings_view, snapshot}
use tokensaver.Application.Desktop.Session.{
  Command, run, run_all, connects, disconnects, refreshes, sets_saving_enabled, sets_min_bytes,
  sets_frontier, sets_preview_code_units,
}
use tokensaver.Application.Desktop.Laws.{IsConsistent, Serves}
use tokensaver.Application.Desktop.Invariant.{run_all-IsConsistent}
use tokensaver.Codex.Toml.{Toml}
use tokensaver.Codex.Config.{
  CodexConfigSnapshot, CodexConnectionState, Checked, ok, err, connected, drifted, not_connected,
}
use tokensaver.Codex.Transaction.{connection_state_with_snapshot}
use tokensaver.Runtime.Status.{RuntimeStatus}
use tokensaver.Telemetry.Store.{PersistentSavings}
use tokensaver.Telemetry.Summary.Laws.{count_session, for_session-events}

-- what a request asks of the controller
abbrev pub commands_of : List ℕ → ControlRequest → List Command
commands_of random connect_codex = connects random ∷ refreshes ∷ []
commands_of random disconnect_codex = disconnects ∷ refreshes ∷ []
commands_of random (saving enabled) = sets_saving_enabled enabled ∷ refreshes ∷ []
commands_of random (config_set key value) =
    if str_eq key (codes "min-bytes")
    then sets_min_bytes value ∷ refreshes ∷ []
    else if str_eq key (codes "frontier")
    then sets_frontier value ∷ refreshes ∷ []
    else if str_eq key (codes "preview-code-units")
    then sets_preview_code_units value ∷ refreshes ∷ []
    else refreshes ∷ []
commands_of random _ = refreshes ∷ []

-- what is told of a failure
abbrev pub IsTold : Texts → Option DesktopRuntimeError → ControlResponse → Type 0
IsTold texts none response = response.success ≡ true
IsTold texts (some e) response =
    (response.success ≡ false)
    × ((places : ℕ) × (text : Str) × (response.message ≡ some text)
        × Redacts places (to_string texts e) text
        × IsHidden text)

-- what is shown of the connection
abbrev pub IsShown : Option ActiveConnection → ControlSnapshot → Type 0
IsShown none shown = (shown.codex ≡ codes "disconnected") × (shown.active_requests ≡ 0)
IsShown (some active) shown =
    (shown.active_requests ≡ count_guards active.control.server.requests)
    × (shown.active_requests ≤ max_concurrent_requests)
    × (shown.policy.min_bytes ≡ active.control.aging_policy.min_bytes)
    × (shown.policy.frontier ≡ active.control.aging_policy.frontier)
    × (shown.policy.preview_code_units ≡ active.control.aging_policy.preview_code_units)

pub record IsAnswered (texts : Texts) (failure : Option DesktopRuntimeError)
    (answer : Controller × ControlResponse) : Type 0 where
  pub told : IsTold texts failure answer.1
  pub state : ControlSnapshot
  pub shown : answer.1.shown ≡ some state
  pub of_connection : IsShown answer.0.connection state
  pub of_session :
      state.session.requests_observed
      ≡ min (count_session answer.0.session_id answer.0.session_ledger.events) u64_max
  pub hidden : (text : Str) → state.last_error ≡ some text → IsHidden text

redacted_notice-IsHidden :
    (texts : Texts) (notice : Option Notice) (text : Str)
    → redacted_notice texts notice ≡ some text
    → IsHidden text
unfolding redacted_notice
redacted_notice-IsHidden texts none text h = cc
redacted_notice-IsHidden texts (some notice) text h =
    let (places, output, ends, _, hidden) = redact_local_secrets-IsHidden (texts.notice notice) in
    let same : output ≡ text = cc in subst IsHidden same hidden

response_of-IsTold :
    (texts : Texts) (failure : Option DesktopRuntimeError) (text : Option Str)
    (shown : ControlSnapshot)
    → IsTold texts failure (response_of texts failure text shown)
unfolding response_of
response_of-IsTold texts none text shown = refl
response_of-IsTold texts (some e) text shown =
    let (places, output, ends, redacts, hidden) =
      redact_local_secrets-IsHidden (to_string texts e) in
    (refl, (places, output, ends, redacts, hidden))

response_of-shown :
    (texts : Texts) (failure : Option DesktopRuntimeError) (text : Option Str)
    (shown : ControlSnapshot)
    → (response_of texts failure text shown).shown ≡ some shown
unfolding response_of
response_of-shown texts none text shown = refl
response_of-shown texts (some e) text shown = refl

connection_health-active_requests :
    (state : Checked CodexConnectionState) (runtime : RuntimeStatus Notice)
    → (connection_health state runtime).active_requests ≡ runtime.active_requests
unfolding connection_health
connection_health-active_requests (ok connected) runtime = ground arith
connection_health-active_requests (ok drifted) runtime = refl
connection_health-active_requests (ok not_connected) runtime = refl
connection_health-active_requests (err e) runtime = refl

module _ (toml : Toml) (to_json : CodexConfigSnapshot → Option Str)
    (from_json : Str → Option CodexConfigSnapshot)
    (savings_to_json : PersistentSavings → Option Str) (bind : ℕ → Option ℕ) where
  handled :
      (texts : Texts) (random : List ℕ) (local_day : Str) (request : ControlRequest)
      (c : Controller)
      → (handle_request toml to_json from_json savings_to_json bind texts random local_day request
          c).0
        ≡ run_all toml to_json from_json savings_to_json bind (commands_of random request) c
  unfolding handle_request dispatch respond snapshot run run_all config_set_for
  handled texts random local_day status c = refl
  handled texts random local_day stats c = refl
  handled texts random local_day config_show c = refl
  handled texts random local_day connect_codex c = refl
  handled texts random local_day disconnect_codex c = refl
  handled texts random local_day (saving enabled) c = refl
  handled texts random local_day (config_set key value) c =
      elim (Bool-cases (str_eq key (codes "min-bytes"))) [
        | inl k1 ↦ rw k1 refl
        | inr n1 ↦ rw n1 (elim (Bool-cases (str_eq key (codes "frontier"))) [
          | inl k2 ↦ rw k2 refl
          | inr n2 ↦ rw n2 (elim (Bool-cases (str_eq key (codes "preview-code-units"))) [
            | inl k3 ↦ rw k3 refl
            | inr n3 ↦ rw n3 refl
          ])
        ])
      ]

  handled-IsConsistent :
      (texts : Texts) (random : List ℕ) (local_day : Str) (request : ControlRequest)
      (c : Controller)
      → IsConsistent c
      → IsConsistent
          (handle_request toml to_json from_json savings_to_json bind texts random local_day request
            c).0
  handled-IsConsistent texts random local_day request c h =
      subst IsConsistent (sym (handled texts random local_day request c)) (
        run_all-IsConsistent toml to_json from_json savings_to_json bind
          (commands_of random request) c h)

  refresh_active-active_requests :
      (active : ActiveConnection) (c : Controller)
      → (refresh_active toml to_json from_json savings_to_json bind active c).status.active_requests
        ≡ active.control.server.active_requests
  unfolding refresh_active
  refresh_active-active_requests active c =
      connection_health-active_requests
        (connection_state_with_snapshot toml to_json from_json c.machine).0
        (record c.status { active_requests = active.control.server.active_requests })

  refresh_with-IsShown :
      (texts : Texts) (local_day : Str) (o : Option ActiveConnection) (c : Controller)
      → Serves (refresh_with toml to_json from_json savings_to_json bind o c).preferences o
      → IsShown o (
          snapshot_to_control texts
            (view local_day (refresh_with toml to_json from_json savings_to_json bind o c)))
  unfolding refresh_with refresh_active snapshot_to_control view
  refresh_with-IsShown texts local_day none c serves = (refl, refl)
  refresh_with-IsShown texts local_day (some active) c serving =
      let active_now = refresh_active-active_requests active c in
      let (counted, bounded) = serving.accounted in
      (
        active_now ∙ counted,
        subst (λ n. n ≤ max_concurrent_requests) (sym active_now) bounded,
        sym serving.min_bytes,
        sym serving.frontier,
        sym serving.preview,
      )

  refresh_with-connection :
      (o : Option ActiveConnection) (c : Controller)
      → (refresh_with toml to_json from_json savings_to_json bind o c).connection ≡ c.connection
  unfolding refresh_with refresh_active
  refresh_with-connection none c = refl
  refresh_with-connection (some active) c = refl

  respond-IsAnswered :
      (texts : Texts) (local_day : Str) (c : Controller) (failure : Option DesktopRuntimeError)
      (text : Option Str)
      → IsConsistent
          (respond toml to_json from_json savings_to_json bind texts local_day
            ((c, failure), text)).0
      → IsAnswered texts failure
          (respond toml to_json from_json savings_to_json bind texts local_day ((c, failure), text))
  unfolding respond snapshot refresh_connection_health snapshot_to_control view savings_view
  respond-IsAnswered texts local_day c failure text h =
      let fresh = refresh_with toml to_json from_json savings_to_json bind c.connection c in
      record {
        told =
            response_of-IsTold texts failure text
              (snapshot_to_control texts (view local_day fresh));
        state = snapshot_to_control texts (view local_day fresh);
        shown =
            response_of-shown texts failure text (snapshot_to_control texts (view local_day fresh));
        of_connection =
            subst (λ o. IsShown o (snapshot_to_control texts (view local_day fresh)))
              (sym (refresh_with-connection c.connection c))
              (refresh_with-IsShown texts local_day c.connection c
                (subst (Serves fresh.preferences) (refresh_with-connection c.connection c) h.1));
        of_session = for_session-events fresh.session_ledger fresh.session_id;
        hidden = redacted_notice-IsHidden texts fresh.status.last_error;
      }

  -- A command of the control socket keeps a consistent controller consistent. Its answer tells of
  -- success exactly if the operation had no error, and else the error's text, in which every local
  -- address is hidden. It always shows a state, after a look at the connection's health. In it the
  -- text of the last error has every local address hidden; with a connection, the active requests
  -- are the guards that its server's requests hold, at most 16, and the policy is the one that its
  -- server applies; without one, no request is active and Codex is disconnected. The requests of
  -- the session are the events of the ledger under its number, up to 2^64 - 1.
  pub handle_request-IsAnswered :
      (texts : Texts) (random : List ℕ) (local_day : Str) (request : ControlRequest)
      (c : Controller)
      → IsConsistent c
      → IsConsistent
          (handle_request toml to_json from_json savings_to_json bind texts random local_day request
            c).0
        × IsAnswered texts
            (dispatch toml to_json from_json savings_to_json bind random request c).0.1
            (handle_request toml to_json from_json savings_to_json bind texts random local_day
              request c)
  unfolding handle_request
  handle_request-IsAnswered texts random local_day request c h =
      let kept = handled-IsConsistent texts random local_day request c h in
      let ((after, failure), text) =
        dispatch toml to_json from_json savings_to_json bind random request c in
      (kept, respond-IsAnswered texts local_day after failure text kept)
