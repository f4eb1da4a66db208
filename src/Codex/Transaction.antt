-- ===== src/Codex/Transaction.antt =====
-- src/modules/codex_integration/config.rs: the connection as a transaction on two files, the Codex
-- configuration and the snapshot. Every access of a file asks for the file system's answer, and
-- each atomic write or removal leaves a disk that a crash may find. The codec of the snapshot is a
-- parameter.
pub mod Steps
pub mod Runs
pub mod Crash
use tokensaver.Prelude.{
  Bool, true, false, not, ◌&&◌, Option, none, some, List, [], ◌∷◌, if◌then◌else◌, Str, str_eq,
  is_some,
}
use tokensaver.Codex.Toml.{Toml}
use tokensaver.Codex.Config.{
  CodexConfigSnapshot, CodexConnectionState, CodexConfigError, Checked, ok, err, connected,
  not_connected, drifted, snapshot_format, active_snapshot_different_endpoint, snapshot_drift, io,
  validate_snapshot, validate_loopback_base_url, connect_config_text, disconnect_config_text,
  connection_state_text,
}

pub record Disk : Type 0 where
  pub config : Option Str
  pub snapshot : Option Str

-- The disk, what the file system will answer (success where the list ends), and the disks that the
-- writes so far have left, the newest first.
pub record Machine : Type 0 where
  pub disk : Disk
  pub answers : List Bool
  pub past : List Disk

-- a machine on which no access fails
abbrev pub booted : Disk → Machine
booted disk = record { disk = disk; answers = []; past = [] }

abbrev pub Step : Type 0 → Type 0
Step A = Machine → Checked A × Machine

pub continue : {A B : Type 0} → (A → Step B) → Checked A → Machine → Checked B × Machine
continue f (ok a) machine = f a machine
continue f (err e) machine = (err e, machine)

infixl 5 ◌>>=◌
unfoldable pub ◌>>=◌ : {A B : Type 0} → Step A → (A → Step B) → Step B
unfolding continue
◌>>=◌ first next machine = continue next (first machine).0 (first machine).1

infixl 5 ◌>>◌
abbrev pub ◌>>◌ : {B : Type 0} → Step (Unit {0}) → Step B → Step B
first >> second = first >>= (λ _. second)

abbrev pub pure : {A : Type 0} → A → Step A
pure a machine = (ok a, machine)

abbrev pub throw : {A : Type 0} → CodexConfigError → Step A
throw e machine = (err e, machine)

abbrev pub lift : {A : Type 0} → Checked A → Step A
lift checked machine = (checked, machine)

unfoldable pub head_answer : List Bool → Bool
head_answer [] = true
head_answer (answer ∷ _) = answer

later_answers : List Bool → List Bool
later_answers [] = []
later_answers (_ ∷ answers) = answers

-- the machine after one more access
pub accessed : Machine → Machine
unfolding later_answers
accessed machine = record machine { answers = later_answers machine.answers }

-- the machine after a write or a removal that succeeded
pub left_with : Disk → Machine → Machine
unfolding accessed
left_with disk machine = record (accessed machine) { disk = disk; past = disk ∷ machine.past }

pub data ReadFile : Type 0 where
  contents : Str → ReadFile
  not_found failed : ReadFile

pub read_answer : Bool → Option Str → ReadFile
read_answer false file = failed
read_answer true none = not_found
read_answer true (some text) = contents text

-- `fs::read_to_string`
pub read_file : (Disk → Option Str) → Step ReadFile
unfolding head_answer accessed read_answer
read_file file machine =
    (ok (read_answer (head_answer machine.answers) (file machine.disk)), accessed machine)

-- `Path::exists`, which is false also where the file system does not answer
unfoldable pub snapshot_exists : Step Bool
unfolding head_answer accessed
snapshot_exists machine =
    (ok (head_answer machine.answers && is_some machine.disk.snapshot), accessed machine)

-- `atomic_write_private`: a write that fails leaves the file as it was
pub write_file : (Disk → Disk) → Step (Unit {0})
unfolding head_answer accessed left_with
write_file change machine =
    if head_answer machine.answers
    then (ok tt, left_with (change machine.disk) machine)
    else (err io, accessed machine)

abbrev pub write_config : Str → Disk → Disk
write_config text disk = record disk { config = some text }

abbrev pub write_snapshot : Str → Disk → Disk
write_snapshot text disk = record disk { snapshot = some text }

-- `fs::remove_file` of the snapshot, where `missing` is what a file that is not there comes to
pub remove_snapshot : Checked (Unit {0}) → Step (Unit {0})
unfolding head_answer accessed left_with
remove_snapshot missing machine =
    if not (head_answer machine.answers)
    then (err io, accessed machine)
    else if is_some machine.disk.snapshot
    then (ok tt, left_with (record machine.disk { snapshot = none }) machine)
    else (missing, accessed machine)

pub text_or_empty : ReadFile → Checked Str
text_or_empty (contents text) = ok text
text_or_empty not_found = ok []
text_or_empty failed = err io

pub text_or_error : ReadFile → Checked Str
text_or_error (contents text) = ok text
text_or_error _ = err io

module _ (toml : Toml) (to_json : CodexConfigSnapshot → Option Str)
    (from_json : Str → Option CodexConfigSnapshot) where
  pub parse_snapshot : Str → Checked CodexConfigSnapshot
  parse_snapshot source = elim (from_json source) [
    | none ↦ err snapshot_format
    | some snapshot ↦ ok snapshot
  ]

  unfoldable pub load_config_snapshot : Step CodexConfigSnapshot
  unfolding text_or_error parse_snapshot read_file
  load_config_snapshot = do
    file ← read_file (λ disk. disk.snapshot)
    source ← lift (text_or_error file)
    snapshot ← lift (parse_snapshot source)
    lift (validate_snapshot snapshot)
    pure snapshot

  state_of_file : CodexConfigSnapshot → ReadFile → Checked CodexConnectionState
  state_of_file snapshot (contents source) = connection_state_text toml source snapshot
  state_of_file snapshot not_found = ok drifted
  state_of_file snapshot failed = err io

  unfoldable pub connection_state_file : CodexConfigSnapshot → Step CodexConnectionState
  unfolding state_of_file read_file
  connection_state_file snapshot = do
    lift (validate_snapshot snapshot)
    file ← read_file (λ disk. disk.config)
    lift (state_of_file snapshot file)

  pub serialized : CodexConfigSnapshot → Checked Str
  serialized snapshot = elim (to_json snapshot) [ none ↦ err snapshot_format | some text ↦ ok text ]

  unfoldable pub save_config_snapshot : CodexConfigSnapshot → Step (Unit {0})
  unfolding serialized write_file
  save_config_snapshot snapshot = do
    lift (validate_snapshot snapshot)
    text ← lift (serialized snapshot)
    write_file (write_snapshot text)

  -- the last write of a connection; where it fails the snapshot is taken away again
  pub after_write : CodexConfigSnapshot → Checked (Unit {0}) → Step CodexConfigSnapshot
  unfolding remove_snapshot
  after_write snapshot (ok _) machine = (ok snapshot, machine)
  after_write snapshot (err e) machine = (err io, (remove_snapshot (ok tt) machine).1)

  pub point_codex : Str × CodexConfigSnapshot → Step CodexConfigSnapshot
  unfolding after_write write_file
  point_codex (next, snapshot) machine =
      let written = write_file (write_config next) machine in
      after_write snapshot written.0 written.1

  pub connect_fresh : Str → Step CodexConfigSnapshot
  unfolding read_file text_or_empty point_codex
  connect_fresh loopback_base_url = do
    file ← read_file (λ disk. disk.config)
    source ← lift (text_or_empty file)
    result ← lift (connect_config_text toml source loopback_base_url)
    save_config_snapshot result.1
    point_codex result

  -- what becomes of a connection where there is a snapshot already
  pub resume : Str → CodexConfigSnapshot → CodexConnectionState → Step CodexConfigSnapshot
  unfolding connect_fresh remove_snapshot
  resume loopback_base_url existing connected =
      if str_eq existing.installed_openai_base_url loopback_base_url
      then pure existing
      else throw
          (active_snapshot_different_endpoint existing.installed_openai_base_url loopback_base_url)
  resume loopback_base_url existing drifted = throw snapshot_drift
  resume loopback_base_url existing not_connected =
      remove_snapshot (err io) >> connect_fresh loopback_base_url

  pub connect_existing : Str → Step CodexConfigSnapshot
  unfolding resume
  connect_existing loopback_base_url = do
    existing ← load_config_snapshot
    state ← connection_state_file existing
    resume loopback_base_url existing state

  pub connect_where : Str → Bool → Step CodexConfigSnapshot
  unfolding connect_existing connect_fresh
  connect_where loopback_base_url true = connect_existing loopback_base_url
  connect_where loopback_base_url false = connect_fresh loopback_base_url

  unfoldable pub connect_with_snapshot : Str → Step CodexConfigSnapshot
  unfolding snapshot_exists connect_where
  connect_with_snapshot loopback_base_url = do
    lift (validate_loopback_base_url loopback_base_url)
    present ← snapshot_exists
    connect_where loopback_base_url present

  unfoldable pub disconnect_config_file : CodexConfigSnapshot → Step (Unit {0})
  unfolding read_file text_or_error write_file
  disconnect_config_file snapshot = do
    lift (validate_snapshot snapshot)
    file ← read_file (λ disk. disk.config)
    source ← lift (text_or_error file)
    next ← lift (disconnect_config_text toml source snapshot)
    write_file (write_config next)

  unfoldable pub disconnect_with_snapshot : Step CodexConfigSnapshot
  unfolding remove_snapshot
  disconnect_with_snapshot = do
    snapshot ← load_config_snapshot
    disconnect_config_file snapshot
    remove_snapshot (ok tt)
    pure snapshot

  state_where : Bool → Step CodexConnectionState
  state_where false = pure not_connected
  state_where true = do snapshot ← load_config_snapshot; connection_state_file snapshot

  unfoldable pub connection_state_with_snapshot : Step CodexConnectionState
  unfolding snapshot_exists state_where
  connection_state_with_snapshot = do present ← snapshot_exists; state_where present
