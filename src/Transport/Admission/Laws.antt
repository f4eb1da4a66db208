-- ===== src/Transport/Admission/Laws.antt =====
-- src/modules/transport/server.rs: the counter is the number of guards that are held, and a drain
-- that finds none admits no request.
use tokensaver.Prelude.{
  ℕ, zero, suc, ◌+◌, ◌≤◌, ◌≡◌, refl, Bool, true, false, List, [], ◌∷◌, arith, All, any,
}
use tokensaver.Transport.Admission.{
  Phase, Server, Action, arrived, checked, entered, admitted, refused, finished, arrive, access,
  drain, resume, max_concurrent_requests, try_enter, advance, advance_at, begin_drain,
  resume_accepting, act, act_all,
}

abbrev pub guards : Phase → ℕ
guards entered = 1
guards admitted = 1
guards _ = 0

abbrev pub count_guards : List Phase → ℕ
count_guards [] = 0
count_guards (phase ∷ phases) = guards phase + count_guards phases

-- The counter is the number of guards that are held, and at most 16.
abbrev pub IsAccounted : Server → Type 0
IsAccounted server =
    (server.active_requests ≡ count_guards server.requests)
    × (server.active_requests ≤ max_concurrent_requests)

advance-guards :
    (active rest : ℕ) (draining : Bool) (phase : Phase)
    → active ≡ guards phase + rest
    → active ≤ max_concurrent_requests
    → ((advance active draining phase).0 ≡ guards (advance active draining phase).1 + rest)
      × ((advance active draining phase).0 ≤ max_concurrent_requests)
unfolding advance try_enter
advance-guards active rest draining arrived h k = ground arith
advance-guards active rest draining checked h k = ground arith
advance-guards active rest draining entered h k = ground arith
advance-guards active rest draining admitted h k = ground arith
advance-guards active rest draining refused h k = ground arith
advance-guards active rest draining finished h k = ground arith

advance_at-guards :
    (i active rest : ℕ) (draining : Bool) (phases : List Phase)
    → active ≡ rest + count_guards phases
    → active ≤ max_concurrent_requests
    → ((advance_at i active draining phases).0
        ≡ rest + count_guards (advance_at i active draining phases).1)
      × ((advance_at i active draining phases).0 ≤ max_concurrent_requests)
unfolding advance_at
advance_at-guards i active rest draining [] h k = (h, k)
advance_at-guards zero active rest draining (phase ∷ phases) h k =
    let (counted, bounded) =
      advance-guards active (rest + count_guards phases) draining phase (omega arith) k in
    (omega arith, bounded)
advance_at-guards (suc i) active rest draining (phase ∷ phases) h k =
    let (counted, bounded) =
      advance_at-guards i active (rest + guards phase) draining phases (omega arith) k in
    (omega arith, bounded)

pub act-IsAccounted :
    (action : Action) (server : Server) → IsAccounted server → IsAccounted (act action server)
unfolding act begin_drain resume_accepting
act-IsAccounted arrive server (h, k) = (omega arith, k)
act-IsAccounted (access i draining) server (h, k) =
    let (counted, bounded) =
      advance_at-guards i server.active_requests 0 draining server.requests (omega arith) k in
    (omega arith, bounded)
act-IsAccounted drain server h = h
act-IsAccounted resume server h = h

-- In any order of the requests' accesses, drains and resumptions, and whatever the requests read
-- of the flag, the counter stays the number of
-- guards that are held, and at most 16.
pub act_all-IsAccounted :
    (actions : List Action) (server : Server)
    → IsAccounted server
    → IsAccounted (act_all actions server)
unfolding act_all
act_all-IsAccounted [] server h = h
act_all-IsAccounted (action ∷ actions) server h =
    act_all-IsAccounted actions (act action server) (act-IsAccounted action server h)

abbrev pub is_admitted : Phase → Bool
is_admitted admitted = true
is_admitted _ = false

abbrev is_resume : Action → Bool
is_resume resume = true
is_resume _ = false

abbrev pub NeverResumes : List Action → Type 0
NeverResumes = All (λ action. is_resume action ≡ false)

-- a load of the flag that reads what was stored last
abbrev Reads : Action → Server → Type 0
Reads (access _ draining) server = draining ≡ server.draining
Reads _ server = Unit

-- every load of the flag does
abbrev pub ReadsLast : List Action → Server → Type 0
ReadsLast [] server = Unit
ReadsLast (action ∷ actions) server = Reads action server × ReadsLast actions (act action server)

count_guards-none : (phases : List Phase) → count_guards phases ≡ 0 → any is_admitted phases ≡ false
count_guards-none [] h = refl
count_guards-none (arrived ∷ phases) h = count_guards-none phases (omega arith)
count_guards-none (checked ∷ phases) h = count_guards-none phases (omega arith)
count_guards-none (entered ∷ phases) h = ground arith
count_guards-none (admitted ∷ phases) h = ground arith
count_guards-none (refused ∷ phases) h = count_guards-none phases (omega arith)
count_guards-none (finished ∷ phases) h = count_guards-none phases (omega arith)

advance-drained : (active : ℕ) (phase : Phase) → is_admitted (advance active true phase).1 ≡ false
unfolding advance try_enter
advance-drained active arrived = refl
advance-drained active checked = ground arith
advance-drained active entered = refl
advance-drained active admitted = refl
advance-drained active refused = refl
advance-drained active finished = refl

advance_at-drained :
    (i active : ℕ) (phases : List Phase)
    → any is_admitted phases ≡ false
    → any is_admitted (advance_at i active true phases).1 ≡ false
unfolding advance_at
advance_at-drained i active [] h = refl
advance_at-drained zero active (phase ∷ phases) h =
    let changed = advance-drained active phase in ground arith
advance_at-drained (suc i) active (phase ∷ phases) h =
    ground (arith, advance_at-drained i active phases)

act-draining :
    (action : Action) (server : Server)
    → is_resume action ≡ false
    → server.draining ≡ true
    → (act action server).draining ≡ true
unfolding act begin_drain
act-draining arrive server h on = on
act-draining (access i draining) server h on = on
act-draining drain server h on = refl
act-draining resume server h on = cc

act_all-draining :
    (actions : List Action) (server : Server)
    → NeverResumes actions
    → server.draining ≡ true
    → (act_all actions server).draining ≡ true
unfolding act_all
act_all-draining [] server h on = on
act_all-draining (action ∷ actions) server (h, more) on =
    act_all-draining actions (act action server) more (act-draining action server h on)

act-drained :
    (action : Action) (server : Server)
    → Reads action server
    → server.draining ≡ true
    → any is_admitted server.requests ≡ false
    → any is_admitted (act action server).requests ≡ false
unfolding act begin_drain resume_accepting
act-drained arrive server h on k = k
act-drained (access i draining) server h on k =
    rw h (rw on (advance_at-drained i server.active_requests server.requests k))
act-drained drain server h on k = k
act-drained resume server h on k = k

act_all-drained :
    (actions : List Action) (server : Server)
    → ReadsLast actions server
    → NeverResumes actions
    → server.draining ≡ true
    → any is_admitted server.requests ≡ false
    → any is_admitted (act_all actions server).requests ≡ false
unfolding act_all
act_all-drained [] server h never on k = k
act_all-drained (action ∷ actions) server (h, more) (stays, never) on k =
    act_all-drained actions (act action server) more never (act-draining action server stays on)
      (act-drained action server h on k)

-- After the store of a drain, and any actions but a resumption between it and the drain's load,
-- let the counter be zero. Then no request is past the second test, however the requests go on
-- until the server resumes, where each of their loads of the flag reads what was stored last. The
-- orderings of the source do not promise that reading; a sequentially consistent order of the
-- accesses does. Between the store and the load the requests may read anything.
pub begin_drain-act_all :
    (between later : List Action) (server : Server)
    → IsAccounted server
    → NeverResumes between
    → (act_all between (begin_drain server).0).active_requests ≡ 0
    → ReadsLast later (act_all between (begin_drain server).0)
    → NeverResumes later
    → any is_admitted (act_all later (act_all between (begin_drain server).0)).requests ≡ false
unfolding begin_drain
begin_drain-act_all between later server h stays empty reads never =
    let stored = record server { draining = true } in
    let at_load = act_all between stored in
    let (counted, _) = act_all-IsAccounted between stored h in
    act_all-drained later at_load reads never (act_all-draining between stored stays refl)
      (count_guards-none at_load.requests (omega arith))
