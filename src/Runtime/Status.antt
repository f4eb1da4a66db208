-- ===== src/Runtime/Status.antt =====
-- src/modules/runtime/state.rs: the status that the runtime shows. The lock around it is left out;
-- an update is one access. A text of an error is kept as what it is the text of.
use tokensaver.Prelude.{ℕ, Bool, true, Option, none}

pub data ServiceStatus : Type 0 where
  stopped starting running error : ServiceStatus

pub data CodexStatus : Type 0 where
  disconnected connecting connected drifted error : CodexStatus

pub record RuntimeStatus (E : Type 0) : Type 0 where
  pub service : ServiceStatus
  pub codex : CodexStatus
  pub saving_enabled : Bool
  pub active_requests : ℕ
  pub last_error : Option E

unfoldable pub default_status : {E : Type 0} → RuntimeStatus E
default_status = record {
  service = stopped;
  codex = disconnected;
  saving_enabled = true;
  active_requests = 0;
  last_error = none;
}
