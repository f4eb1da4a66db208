-- ===== src/Tests/Admission.antt =====
-- Runs of the admission of src/modules/transport/server.rs: two requests, and a drain.
use tokensaver.Prelude.{◌≡◌, refl, true, false, List, [], ◌∷◌, arith, any}
use tokensaver.Transport.Admission.{
  Server, Action, arrived, checked, entered, access, arrive, drain, resume, begin_drain, act_all,
  act, try_enter,
}
use tokensaver.Transport.Admission.Laws.{
  IsAccounted, ReadsLast, is_admitted, act_all-IsAccounted, begin_drain-act_all,
}

abbrev busy : Server
busy = record { active_requests = 1; draining = false; requests = entered ∷ checked ∷ [] }

busy-IsAccounted : IsAccounted busy
busy-IsAccounted = (refl, omega arith)

act_all-IsAccounted_example :
    IsAccounted
      (act_all (access 1 false ∷ drain ∷ access 0 false ∷ resume ∷ access 1 true ∷ []) busy)
act_all-IsAccounted_example =
    act_all-IsAccounted (access 1 false ∷ drain ∷ access 0 false ∷ resume ∷ access 1 true ∷ []) busy
      busy-IsAccounted

abbrev idle : Server
idle = record { active_requests = 0; draining = false; requests = checked ∷ arrived ∷ [] }

idle-IsAccounted : IsAccounted idle
idle-IsAccounted = (refl, omega arith)

-- while the store is on its way, one request counts itself and is refused
abbrev between : List Action
between = access 0 false ∷ access 0 true ∷ []

drained : (act_all between (begin_drain idle).0).active_requests ≡ 0
unfolding begin_drain act_all act
drained = refl

abbrev later : List Action
later = access 1 true ∷ arrive ∷ access 0 true ∷ []

later-ReadsLast : ReadsLast later (act_all between (begin_drain idle).0)
unfolding begin_drain act_all act
later-ReadsLast = (refl, (tt, (refl, tt)))

begin_drain-act_all_example :
    any is_admitted (act_all later (act_all between (begin_drain idle).0)).requests ≡ false
begin_drain-act_all_example =
    begin_drain-act_all between later idle idle-IsAccounted (refl, (refl, tt)) drained
      later-ReadsLast (refl, (refl, (refl, tt)))

-- A request that misses the store is admitted although the counter was zero at the load.
stale_reading :
    any is_admitted (act_all (access 0 false ∷ access 0 false ∷ []) (begin_drain idle).0).requests
    ≡ true
unfolding begin_drain act_all act try_enter
stale_reading = refl
