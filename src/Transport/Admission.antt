-- ===== src/Transport/Admission.antt =====
-- src/modules/transport/server.rs: which requests are admitted. Requests run at the same time; an
-- action is one atomic access of the shared counter or flag, and actions come one after another in
-- any order. The counter is changed by atomic read-modify-writes, which see the last change. What
-- a request's load of `draining` reads is part of its action, since the orderings of the source
-- (Release, Acquire) let it miss a store that came before; `begin_drain` is two accesses, a store
-- and a load, between which other actions may come.
pub mod Laws
use tokensaver.Prelude.{
  ℕ, zero, suc, ◌+◌, ◌-◌, Bool, true, false, Option, none, some, List, [], ◌∷◌, ltb, if◌then◌else◌,
}

abbrev pub max_concurrent_requests : ℕ
max_concurrent_requests = 16

-- Where a request is: before the first test of `draining`, before the counter, holding a guard
-- before the second test, past it, and at its end.
pub data Phase : Type 0 where
  arrived checked entered admitted refused finished : Phase

pub record Server : Type 0 where
  pub active_requests : ℕ
  pub draining : Bool
  pub requests : List Phase

-- `ActiveRequestGuard::try_enter`
unfoldable pub try_enter : ℕ → Option ℕ
try_enter current = if ltb current max_concurrent_requests then some (current + 1) else none

-- the counter and the phase after the next access of one request, where `draining` is what its load
-- of the flag reads; a guard that is dropped counts down
advance : ℕ → Bool → Phase → ℕ × Phase
unfolding try_enter
advance active draining arrived = if draining then (active, refused) else (active, checked)
advance active draining checked = elim (try_enter active) [
  | none ↦ (active, refused)
  | some active' ↦ (active', entered)
]
advance active draining entered = if draining then (active - 1, refused) else (active, admitted)
advance active draining admitted = (active - 1, finished)
advance active draining refused = (active, refused)
advance active draining finished = (active, finished)

advance_at : ℕ → ℕ → Bool → List Phase → ℕ × List Phase
unfolding advance
advance_at i active draining [] = (active, [])
advance_at zero active draining (phase ∷ phases) =
    ((advance active draining phase).0, (advance active draining phase).1 ∷ phases)
advance_at (suc i) active draining (phase ∷ phases) =
    let rest = advance_at i active draining phases in (rest.0, phase ∷ rest.1)

-- the store, and the load with nothing between them
unfoldable pub begin_drain : Server → Server × ℕ
begin_drain server = (record server { draining = true }, server.active_requests)

unfoldable pub resume_accepting : Server → Server
resume_accepting server = record server { draining = false }

pub data Action : Type 0 where
  arrive : Action
  access : ℕ → Bool → Action
  -- the store of `begin_drain`, and `resume_accepting`
  drain resume : Action

unfoldable pub act : Action → Server → Server
unfolding advance_at
act arrive server = record server { requests = arrived ∷ server.requests }
act (access i draining) server =
    let next = advance_at i server.active_requests draining server.requests in
    record server { active_requests = next.0; requests = next.1 }
act drain server = (begin_drain server).0
act resume server = resume_accepting server

unfoldable pub act_all : List Action → Server → Server
act_all [] server = server
act_all (action ∷ actions) server = act_all actions (act action server)
