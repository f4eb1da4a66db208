-- ===== src/Codex/Transaction/Crash.antt =====
-- src/modules/codex_integration/config.rs: whatever fails while Codex is connected, and wherever
-- the program stops, the configuration is as it was, or disconnecting restores it.
use mathlib.Core.Path.{subst}
use tokensaver.Prelude.{
  ◌≡◌, refl, sym, ap, ◌∙◌, ◌⊎◌, inl, inr, Bool, true, false, Option, none, some, List, [], ◌∷◌,
  arith, Bool-cases, All, Str, str_eq,
}
use tokensaver.Codex.Toml.{Toml, TomlLaws}
use tokensaver.Codex.Config.{
  io, CodexConfigSnapshot, CodexConnectionState, ok, err, connected, not_connected, drifted,
  validate_snapshot, connect_config_text, validate_loopback_base_url,
}
use tokensaver.Codex.Config.RoundTrip.{SameConfig, disconnect-connect}
use tokensaver.Codex.Transaction.{
  Disk, Machine, Step, ◌>>=◌, ◌>>◌, lift, booted, continue, read_file, text_or_error,
  parse_snapshot, load_config_snapshot, connection_state_file, serialized, save_config_snapshot,
  point_codex, connect_fresh, disconnect_with_snapshot, accessed, snapshot_exists, write_config,
  remove_snapshot, text_or_empty, resume, connect_existing, connect_where, connect_with_snapshot,
}
use tokensaver.Codex.Transaction.Runs.{disconnect_run}
use tokensaver.Codex.Transaction.Steps.{
  IsUntouched, NothingWritten, text_of_file, read_file-text, write_file-cases,
  accessed-NothingWritten, Checked-cases, bind-NothingWritten, bind-inv, write_snapshot-ok,
  read_file-NothingWritten, write_snapshot-NothingWritten, remove_snapshot-NothingWritten,
  snapshot_exists-NothingWritten,
}

module _ (toml : Toml) (to_json : CodexConfigSnapshot → Option Str)
    (from_json : Str → Option CodexConfigSnapshot) where
  -- A later disconnection succeeds, takes the snapshot away and leaves a configuration in which
  -- every key reads as it did before.
  pub record IsRestorable (before : Option Str) (disk : Disk) : Type 0 where
    pub taken : CodexConfigSnapshot
    pub restored : Str
    pub succeeds : (disconnect_with_snapshot toml to_json from_json (booted disk)).0 ≡ ok taken
    pub restores :
        (disconnect_with_snapshot toml to_json from_json (booted disk)).1.disk.config
        ≡ some restored
    pub forgets :
        (disconnect_with_snapshot toml to_json from_json (booted disk)).1.disk.snapshot ≡ none
    pub same : SameConfig toml (text_of_file before) restored

  -- as it was, or restorable
  abbrev pub IsSafe : Option Str → Disk → Type 0
  IsSafe before disk = IsUntouched before disk ⊎ IsRestorable before disk

  abbrev pub AllSafe : Option Str → Machine → Type 0
  AllSafe before machine = IsSafe before machine.disk × All (IsSafe before) machine.past

  All-IsSafe :
      (before : Option Str) (disks : List Disk)
      → All (IsUntouched before) disks
      → All (IsSafe before) disks
  All-IsSafe before [] h = tt
  All-IsSafe before (disk ∷ disks) (h, hs) = (inl h, All-IsSafe before disks hs)

  NothingWritten-AllSafe :
      (before : Option Str) (machine : Machine)
      → NothingWritten before machine
      → AllSafe before machine
  NothingWritten-AllSafe before machine (h, hs) = (inl h, All-IsSafe before machine.past hs)

  -- A step that writes nothing, and then the rest.
  bind-AllSafe :
      {A B : Type 0} (before : Option Str) (m : Step A) (f : A → Step B) (machine : Machine)
      → NothingWritten before (m machine).1
      → ((a : A) → (m machine).0 ≡ ok a → AllSafe before (f a (m machine).1).1)
      → AllSafe before ((m >>= f) machine).1
  unfolding ◌>>=◌
  bind-AllSafe before m f machine h k = elim (Checked-cases (m machine).0) [
    | inl (a, e) ↦ rw (e, continue) (k a e)
    | inr (reason, e) ↦ rw (e, continue) (NothingWritten-AllSafe before (m machine).1 h)
  ]

  load-NothingWritten :
      (before : Option Str) (machine : Machine)
      → NothingWritten before machine
      → NothingWritten before (load_config_snapshot toml to_json from_json machine).1
  unfolding load_config_snapshot
  load-NothingWritten before machine h =
      bind-NothingWritten before (read_file (λ disk. disk.snapshot)) _ machine
        (read_file-NothingWritten before (λ disk. disk.snapshot) machine h)
        (λ file s1 h1.
          bind-NothingWritten before (lift (text_or_error file)) _ s1 h1 (λ source s2 h2.
            bind-NothingWritten before (lift (parse_snapshot toml to_json from_json source)) _ s2 h2
              (λ snapshot s3 h3.
                bind-NothingWritten before (lift (validate_snapshot snapshot)) _ s3 h3
                  (λ _ s4 h4. h4))))

  state-NothingWritten :
      (before : Option Str) (snapshot : CodexConfigSnapshot) (machine : Machine)
      → NothingWritten before machine
      → NothingWritten before (connection_state_file toml to_json from_json snapshot machine).1
  unfolding connection_state_file
  state-NothingWritten before snapshot machine h =
      bind-NothingWritten before (lift (validate_snapshot snapshot)) _ machine h (λ _ s1 h1.
        bind-NothingWritten before (read_file (λ disk. disk.config)) _ s1
          (read_file-NothingWritten before (λ disk. disk.config) s1 h1) (λ file s2 h2. h2))

  save-NothingWritten :
      (before : Option Str) (snapshot : CodexConfigSnapshot) (machine : Machine)
      → NothingWritten before machine
      → NothingWritten before (save_config_snapshot toml to_json from_json snapshot machine).1
  unfolding save_config_snapshot
  save-NothingWritten before snapshot machine h =
      bind-NothingWritten before (lift (validate_snapshot snapshot)) _ machine h (λ _ s1 h1.
        bind-NothingWritten before (lift (serialized toml to_json from_json snapshot)) _ s1 h1
          (λ text s2 h2. write_snapshot-NothingWritten before text s2 h2))

  serialized-ok :
      (snapshot : CodexConfigSnapshot) (text : Str)
      → serialized toml to_json from_json snapshot ≡ ok text
      → to_json snapshot ≡ some text
  unfolding serialized
  serialized-ok snapshot text h = ground arith

  -- a snapshot that was saved is on the disk
  save-snapshot :
      (snapshot : CodexConfigSnapshot) (machine : Machine)
      → (save_config_snapshot toml to_json from_json snapshot machine).0 ≡ ok tt
      → (text : Str) × (to_json snapshot ≡ some text)
        × ((save_config_snapshot toml to_json from_json snapshot machine).1.disk.snapshot
            ≡ some text)
        × (validate_snapshot snapshot ≡ ok tt)
  unfolding save_config_snapshot
  save-snapshot snapshot machine h =
      let (_, valid, p1, h1) = bind-inv (lift (validate_snapshot snapshot)) _ machine tt h in
      let (text, printed, p2, h2) =
        bind-inv (lift (serialized toml to_json from_json snapshot)) _ machine tt h1 in
      (
        text,
        serialized-ok snapshot text printed,
        ap (λ p. p.1.disk.snapshot) (p1 ∙ p2) ∙ write_snapshot-ok text machine h2,
        valid,
      )

  -- With its snapshot on the disk a connected configuration is restorable.
  connected-IsRestorable :
      (laws : TomlLaws toml)
      (reads_back : (snapshot : CodexConfigSnapshot) (text : Str)
        → to_json snapshot ≡ some text
        → from_json text ≡ some snapshot)
      (before : Option Str) (url next text : Str) (taken : CodexConfigSnapshot)
      → connect_config_text toml (text_of_file before) url ≡ ok (next, taken)
      → validate_snapshot taken ≡ ok tt
      → to_json taken ≡ some text
      → IsRestorable before (record { config = some next; snapshot = some text })
  connected-IsRestorable laws reads_back before url next text taken h valid written =
      let (_, (restored, taken_out, same)) =
        disconnect-connect toml laws (text_of_file before) url next taken h in
      let disk : Disk = record { config = some next; snapshot = some text } in
      let machine : Machine = booted disk in
      let run =
        disconnect_run toml to_json from_json taken restored text next []
          (reads_back taken text written) valid taken_out in
      record {
        taken = taken;
        restored = restored;
        succeeds = ap (λ p. p.0) run;
        restores = ap (λ p. p.1.disk.config) run;
        forgets = ap (λ p. p.1.disk.snapshot) run;
        same = same;
      }

  module _ (laws : TomlLaws toml)
      (reads_back : (snapshot : CodexConfigSnapshot) (text : Str)
        → to_json snapshot ≡ some text
        → from_json text ≡ some snapshot)
      (before : Option Str) (url : Str) where
    -- the last write, with the snapshot on the disk
    point_codex-AllSafe :
        (next text : Str) (taken : CodexConfigSnapshot) (machine : Machine)
        → NothingWritten before machine
        → machine.disk.snapshot ≡ some text
        → connect_config_text toml (text_of_file before) url ≡ ok (next, taken)
        → validate_snapshot taken ≡ ok tt
        → to_json taken ≡ some text
        → AllSafe before (point_codex toml to_json from_json (next, taken) machine).1
    unfolding point_codex
    point_codex-AllSafe next text taken machine h saved made valid written =
        elim (write_file-cases (write_config next) machine) [
          | inl done ↦
              rw (done, point_codex)
                (
                  inr (
                      subst (λ s. IsRestorable before (record { config = some next; snapshot = s }))
                        (sym saved)
                        (connected-IsRestorable laws reads_back before url next text taken made
                          valid written)),
                  (
                    inr (
                        subst
                          (λ s. IsRestorable before (record { config = some next; snapshot = s }))
                          (sym saved)
                          (connected-IsRestorable laws reads_back before url next text taken made
                            valid written)),
                    All-IsSafe before machine.past h.1,
                  ),
                )
          | inr failure ↦
              rw (failure, point_codex)
                (NothingWritten-AllSafe before (remove_snapshot (ok tt) (accessed machine)).1 (
                  remove_snapshot-NothingWritten before (ok tt) (accessed machine)
                    (accessed-NothingWritten before machine h)))
        ]

    save_and_point :
        (result : Str × CodexConfigSnapshot) (machine : Machine)
        → NothingWritten before machine
        → connect_config_text toml (text_of_file before) url ≡ ok result
        → AllSafe before
            ((save_config_snapshot toml to_json from_json result.1
                >> point_codex toml to_json from_json result)
              machine).1
    save_and_point result machine h made =
        bind-AllSafe before (save_config_snapshot toml to_json from_json result.1) _ machine
          (save-NothingWritten before result.1 machine h)
          (λ _ saved.
            let (text, written, on_disk, valid) = save-snapshot result.1 machine saved in
            point_codex-AllSafe result.0 text result.1
              (save_config_snapshot toml to_json from_json result.1 machine).1
              (save-NothingWritten before result.1 machine h) on_disk made valid written)

    connect_fresh-AllSafe :
        (machine : Machine)
        → NothingWritten before machine
        → AllSafe before (connect_fresh toml to_json from_json url machine).1
    unfolding connect_fresh
    connect_fresh-AllSafe machine h =
        bind-AllSafe before (read_file (λ disk. disk.config)) _ machine
          (read_file-NothingWritten before (λ disk. disk.config) machine h)
          (λ file got.
            let s1 = (read_file (λ disk. disk.config) machine).1 in
            let h1 = read_file-NothingWritten before (λ disk. disk.config) machine h in
            bind-AllSafe before (lift (text_or_empty file)) _ s1 h1 (λ source found.
              let same : source ≡ text_of_file before =
                read_file-text machine file source got found ∙ ap text_of_file h.0 in
              bind-AllSafe before (lift (connect_config_text toml source url)) _ s1 h1
                (λ result made.
                  save_and_point result s1 h1
                    (subst (λ s. connect_config_text toml s url ≡ ok result) same made))))

    resume-AllSafe :
        (existing : CodexConfigSnapshot) (state : CodexConnectionState) (machine : Machine)
        → NothingWritten before machine
        → AllSafe before (resume toml to_json from_json url existing state machine).1
    unfolding resume
    resume-AllSafe existing connected machine h =
        elim (Bool-cases (str_eq existing.installed_openai_base_url url)) [
          | inl same ↦ rw (same, resume) (NothingWritten-AllSafe before machine h)
          | inr apart ↦ rw (apart, resume) (NothingWritten-AllSafe before machine h)
        ]
    resume-AllSafe existing drifted machine h = NothingWritten-AllSafe before machine h
    resume-AllSafe existing not_connected machine h =
        bind-AllSafe before (remove_snapshot (err io)) _ machine
          (remove_snapshot-NothingWritten before (err io) machine h)
          (λ _ removed.
            connect_fresh-AllSafe (remove_snapshot (err io) machine).1
              (remove_snapshot-NothingWritten before (err io) machine h))

    connect_where-AllSafe :
        (present : Bool) (machine : Machine)
        → NothingWritten before machine
        → AllSafe before (connect_where toml to_json from_json url present machine).1
    unfolding connect_where connect_existing
    connect_where-AllSafe false machine h = connect_fresh-AllSafe machine h
    connect_where-AllSafe true machine h =
        bind-AllSafe before (load_config_snapshot toml to_json from_json) _ machine
          (load-NothingWritten before machine h)
          (λ existing loaded.
            let s1 = (load_config_snapshot toml to_json from_json machine).1 in
            let h1 = load-NothingWritten before machine h in
            bind-AllSafe before (connection_state_file toml to_json from_json existing) _ s1
              (state-NothingWritten before existing s1 h1)
              (λ state seen_state.
                resume-AllSafe existing state
                  (connection_state_file toml to_json from_json existing s1).1
                  (state-NothingWritten before existing s1 h1)))

  -- Whatever the file system answers while Codex is connected, on the disk at the end and on every
  -- disk that a write has left on the way the configuration file is as it was before, or a later
  -- disconnection without failures succeeds, removes the snapshot and leaves a configuration in
  -- which every key reads as before. The snapshot's codec reads back what it writes.
  pub connect_with_snapshot-AllSafe :
      (laws : TomlLaws toml)
      (reads_back : (snapshot : CodexConfigSnapshot) (text : Str)
        → to_json snapshot ≡ some text
        → from_json text ≡ some snapshot)
      (url : Str) (disk : Disk) (answers : List Bool)
      → AllSafe disk.config
          (connect_with_snapshot toml to_json from_json url
            (record { disk = disk; answers = answers; past = [] })).1
  unfolding connect_with_snapshot
  connect_with_snapshot-AllSafe laws reads_back url disk answers =
      let machine : Machine = record { disk = disk; answers = answers; past = [] } in
      let h : NothingWritten disk.config machine = (refl, tt) in
      bind-AllSafe disk.config (lift (validate_loopback_base_url url)) _ machine h (λ _ valid.
        bind-AllSafe disk.config snapshot_exists _ machine
          (snapshot_exists-NothingWritten disk.config machine h)
          (λ present answered.
            connect_where-AllSafe laws reads_back disk.config url present
              (snapshot_exists machine).1 (snapshot_exists-NothingWritten disk.config machine h)))
