-- ===== src/Application/Desktop/Refusals.antt =====
-- src/application/desktop_runtime.rs: how a disconnection ends.
use mathlib.Core.Path.{subst}
use tokensaver.Prelude.{
  ℕ, ◌≡◌, refl, sym, ap, ◌≢◌, ◌⊎◌, inl, inr, Bool, true, false, Option, none, some, [], arith, ltb,
  Bool-cases, any, Str,
}
use tokensaver.Application.Connection.{
  ActiveConnection, Connecting, ready, refused, disconnect_native_codex,
}
use tokensaver.Application.Desktop.{
  Controller, Operation, disconnect_internal, disconnect_with, change_preferences, with_server,
  flush_persistent, clear_preference, restored_codex, disconnect_active,
}
use tokensaver.Application.Desktop.Laws.{IsConsistent, IsServing, proceed-keeps}
use tokensaver.Codex.Transaction.{Machine}
use tokensaver.Codex.Toml.{Toml}
use tokensaver.Codex.Config.{CodexConfigSnapshot}
use tokensaver.Telemetry.Store.{PersistentSavings}
use tokensaver.Transport.Admission.{act_all, begin_drain, resume_accepting}
use tokensaver.Transport.Admission.Laws.{is_admitted, begin_drain-act_all}

module _ (toml : Toml) (to_json : CodexConfigSnapshot → Option Str)
    (from_json : Str → Option CodexConfigSnapshot)
    (savings_to_json : PersistentSavings → Option Str) (bind : ℕ → Option ℕ) where
  -- the connection is gone, no request was past the admission, and the files of Codex were restored
  pub record IsClosed (c : Controller) (active : ActiveConnection) (r : Operation) : Type 0 where
    pub closed : r.0.connection ≡ none
    pub none_active : active.control.server.active_requests ≡ 0
    pub none_admitted : any is_admitted active.control.server.requests ≡ false
    pub taken : CodexConfigSnapshot
    pub restored : (disconnect_native_codex toml to_json from_json c.machine).0 ≡ ready taken
    pub files : r.0.machine ≡ (disconnect_native_codex toml to_json from_json c.machine).1

  -- there is an error, and the connection and the preferences are as they were
  pub record IsRefused (c : Controller) (r : Operation) : Type 0 where
    pub failure : r.1 ≢ none
    pub connection : r.0.connection ≡ c.connection
    pub preferences : r.0.preferences ≡ c.preferences
    pub saved : r.0.saved_preferences ≡ c.saved_preferences

  resumed-eq :
      (active : ActiveConnection)
      → active.control.server.draining ≡ false
      → with_server resume_accepting
          (with_server (λ _. (begin_drain active.control.server).0) active)
        ≡ active
  unfolding with_server resume_accepting begin_drain
  resumed-eq active h =
      ap
        (λ d. record active {
          control = record active.control {
            server = record active.control.server { draining = d };
          };
        })
        (sym h)

  -- a connection that is gone, and files that stay
  abbrev IsGone : Machine → Controller → Type 0
  IsGone machine c = (c.connection ≡ none) × (c.machine ≡ machine)

  clear-IsGone :
      (clear : Bool) (machine : Machine) (c : Controller)
      → IsGone machine c
      → IsGone machine (clear_preference toml to_json from_json savings_to_json bind clear c).0
  unfolding clear_preference change_preferences
  clear-IsGone true machine c h = h
  clear-IsGone false machine c h = h

  flush-IsGone :
      (machine : Machine) (c : Controller)
      → IsGone machine c
      → IsGone machine (flush_persistent toml to_json from_json savings_to_json bind c).0
  unfolding flush_persistent
  flush-IsGone machine c h = h

  restored_codex-ends :
      (clear : Bool) (c : Controller) (active : ActiveConnection)
      (result : Connecting CodexConfigSnapshot)
      → c.connection ≡ some active
      → active.control.server.draining ≡ false
      → active.control.server.active_requests ≡ 0
      → any is_admitted active.control.server.requests ≡ false
      → (disconnect_native_codex toml to_json from_json c.machine).0 ≡ result
      → IsClosed c active (
          restored_codex toml to_json from_json savings_to_json bind clear
            (with_server (λ _. (begin_drain active.control.server).0) active)
            result
            (record c { machine = (disconnect_native_codex toml to_json from_json c.machine).1 }))
        ⊎ IsRefused c (
            restored_codex toml to_json from_json savings_to_json bind clear
              (with_server (λ _. (begin_drain active.control.server).0) active)
              result
              (record c { machine = (disconnect_native_codex toml to_json from_json c.machine).1 }))
  unfolding restored_codex
  restored_codex-ends clear c active (refused e) here accepts idle admitted found = inr (record {
    failure = λ h. cc;
    connection = rw (resumed-eq active accepts) (sym here);
    preferences = refl;
    saved = refl;
  })
  restored_codex-ends clear c active (ready taken) here accepts idle admitted found =
      let machine = (disconnect_native_codex toml to_json from_json c.machine).1 in
      let closed = record c { machine = machine; connection = none } in
      let gone =
        proceed-keeps (IsGone machine) (IsGone machine)
          (clear_preference toml to_json from_json savings_to_json bind clear closed) _
          (clear-IsGone clear machine closed (refl, refl)) (λ c k. k)
          (λ c k. flush-IsGone machine _ k) in
      inl (record {
        closed = gone.0;
        none_active = idle;
        none_admitted = admitted;
        taken = taken;
        restored = found;
        files = gone.1;
      })

  disconnect_active-ends :
      (clear : Bool) (c : Controller) (active : ActiveConnection)
      → IsServing c.preferences active
      → c.connection ≡ some active
      → IsClosed c active
          (disconnect_active toml to_json from_json savings_to_json bind clear active c)
        ⊎ IsRefused c (disconnect_active toml to_json from_json savings_to_json bind clear active c)
  unfolding disconnect_active begin_drain act_all
  disconnect_active-ends clear c active serving here =
      elim (Bool-cases (ltb 0 active.control.server.active_requests)) [
        | inl some_left ↦ rw some_left (
            inr (record {
              failure = λ h. cc;
              connection = rw (resumed-eq active serving.accepts) (sym here);
              preferences = refl;
              saved = refl;
            }))
        | inr none_left ↦
            let idle : active.control.server.active_requests ≡ 0 = ground arith in
            let admitted =
              begin_drain-act_all [] [] active.control.server serving.accounted tt idle tt tt in
            rw none_left
              (restored_codex-ends clear c active _ here serving.accepts idle admitted refl)
      ]

  -- A disconnection of a consistent controller with a connection ends in one of two ways. Either
  -- the connection is gone, none of its requests was active or past the admission, and the files
  -- of Codex are what a successful restoration has left; or there is an error, and the connection
  -- and the preferences are as they were.
  pub disconnect_internal-ends :
      (clear : Bool) (c : Controller) (active : ActiveConnection)
      → IsConsistent c
      → c.connection ≡ some active
      → IsClosed c active (disconnect_internal toml to_json from_json savings_to_json bind clear c)
        ⊎ IsRefused c (disconnect_internal toml to_json from_json savings_to_json bind clear c)
  unfolding disconnect_internal disconnect_with
  disconnect_internal-ends clear c active (valid, serves) here =
      let serving : IsServing c.preferences active = rw here at serves in
      subst
        (λ o.
          IsClosed c active (disconnect_with toml to_json from_json savings_to_json bind clear o c)
          ⊎ IsRefused c (disconnect_with toml to_json from_json savings_to_json bind clear o c))
        (sym here) (disconnect_active-ends clear c active serving here)
