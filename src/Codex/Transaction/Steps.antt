-- ===== src/Codex/Transaction/Steps.antt =====
-- src/modules/codex_integration/config.rs: the steps of the transaction one by one, and those that
-- leave the configuration file alone.
use tokensaver.Prelude.{
  ◌≡◌, refl, sym, ap, ◌∙◌, ◌≢◌, ◌⊎◌, inl, inr, Bool, true, false, Option, none, some, [], arith,
  Bool-cases, All, Str,
}
use tokensaver.Codex.Config.{CodexConfigError, Checked, ok, err, io}
use tokensaver.Codex.Transaction.{
  Disk, Machine, Step, ReadFile, ◌>>=◌, continue, read_file, write_file, write_snapshot,
  remove_snapshot, head_answer, accessed, left_with, snapshot_exists, text_or_empty, read_answer,
}

-- the configuration file has not been written
abbrev pub IsUntouched : Option Str → Disk → Type 0
IsUntouched before disk = disk.config ≡ before

abbrev pub NothingWritten : Option Str → Machine → Type 0
NothingWritten before machine =
    IsUntouched before machine.disk × All (IsUntouched before) machine.past

pub Checked-cases :
    {A : Type 0} (m : Checked A) → ((a : A) × (m ≡ ok a)) ⊎ ((e : CodexConfigError) × (m ≡ err e))
Checked-cases (ok a) = inl (a, refl)
Checked-cases (err e) = inr (e, refl)

pub write_snapshot-ok :
    (text : Str) (machine : Machine)
    → (write_file (write_snapshot text) machine).0 ≡ ok tt
    → (write_file (write_snapshot text) machine).1.disk.snapshot ≡ some text
unfolding write_file
write_snapshot-ok text machine h = ground arith

module _ (before : Option Str) where
  pub read_file-NothingWritten :
      (file : Disk → Option Str) (machine : Machine)
      → NothingWritten before machine
      → NothingWritten before (read_file file machine).1
  unfolding read_file
  read_file-NothingWritten file machine h = h

  pub write_snapshot-NothingWritten :
      (text : Str) (machine : Machine)
      → NothingWritten before machine
      → NothingWritten before (write_file (write_snapshot text) machine).1
  unfolding write_file
  write_snapshot-NothingWritten text machine h = ground arith

  pub remove_snapshot-NothingWritten :
      (missing : Checked (Unit {0})) (machine : Machine)
      → NothingWritten before machine
      → NothingWritten before (remove_snapshot missing machine).1
  unfolding remove_snapshot
  remove_snapshot-NothingWritten missing machine h = ground arith

-- The configuration's text, where a file that is not there is empty.
abbrev pub text_of_file : Option Str → Str
text_of_file none = []
text_of_file (some text) = text

read_answer-text :
    (answer : Bool) (file : Option Str) (source : Str)
    → text_or_empty (read_answer answer file) ≡ ok source
    → source ≡ text_of_file file
unfolding read_answer text_or_empty
read_answer-text false file source h = cc
read_answer-text true none source h = cc
read_answer-text true (some text) source h = cc

pub read_file-text :
    (machine : Machine) (file : ReadFile) (source : Str)
    → (read_file (λ disk. disk.config) machine).0 ≡ ok file
    → text_or_empty file ≡ ok source
    → source ≡ text_of_file machine.disk.config
unfolding read_file
read_file-text machine file source got found =
    let same : read_answer (head_answer machine.answers) machine.disk.config ≡ file = cc in
    read_answer-text (head_answer machine.answers) machine.disk.config source
      (ap text_or_empty same ∙ found)

pub write_file-cases :
    (change : Disk → Disk) (machine : Machine)
    → (write_file change machine ≡ (ok tt, left_with (change machine.disk) machine))
      ⊎ (write_file change machine ≡ (err io, accessed machine))
unfolding write_file
write_file-cases change machine = elim (Bool-cases (head_answer machine.answers)) [
  | inl yes_answer ↦ inl (rw (yes_answer, write_file) refl)
  | inr no_answer ↦ inr (rw (no_answer, write_file) refl)
]

pub accessed-NothingWritten :
    (before : Option Str) (machine : Machine)
    → NothingWritten before machine
    → NothingWritten before (accessed machine)
unfolding accessed
accessed-NothingWritten before machine h = h

pub snapshot_exists-NothingWritten :
    (before : Option Str) (machine : Machine)
    → NothingWritten before machine
    → NothingWritten before (snapshot_exists machine).1
unfolding snapshot_exists
snapshot_exists-NothingWritten before machine h = h

pub bind-NothingWritten :
    {A B : Type 0} (before : Option Str) (m : Step A) (f : A → Step B) (machine : Machine)
    → NothingWritten before (m machine).1
    → ((a : A) (next : Machine) → NothingWritten before next → NothingWritten before (f a next).1)
    → NothingWritten before ((m >>= f) machine).1
unfolding ◌>>=◌
bind-NothingWritten before m f machine h k = elim (Checked-cases (m machine).0) [
  | inl (a, e) ↦ rw (e, continue) (k a (m machine).1 h)
  | inr (reason, e) ↦ rw (e, continue) h
]

-- A step that succeeds, and the inversion of one.
pub bind-ok :
    {A B : Type 0} (m : Step A) (f : A → Step B) (machine : Machine) (a : A)
    → (m machine).0 ≡ ok a
    → (m >>= f) machine ≡ f a (m machine).1
unfolding ◌>>=◌
bind-ok m f machine a h = rw (h, continue)

pub bind-err :
    {A B : Type 0} (m : Step A) (f : A → Step B) (machine : Machine) (reason : CodexConfigError)
    (b : B)
    → (m machine).0 ≡ err reason
    → ((m >>= f) machine).0 ≢ ok b
unfolding ◌>>=◌
bind-err m f machine reason b h k = let bad : err reason ≡ ok b = rw (h, continue) at k in cc

pub bind-inv :
    {A B : Type 0} (m : Step A) (f : A → Step B) (machine : Machine) (b : B)
    → ((m >>= f) machine).0 ≡ ok b
    → (a : A) × ((m machine).0 ≡ ok a)
      × ((m >>= f) machine ≡ f a (m machine).1)
      × ((f a (m machine).1).0 ≡ ok b)
bind-inv m f machine b h = elim (Checked-cases (m machine).0) [
  | inl (a, e) ↦ let step = bind-ok m f machine a e in (a, e, step, ap (λ p. p.0) (sym step) ∙ h)
  | inr (reason, e) ↦ absurd (bind-err m f machine reason b e h)
]
