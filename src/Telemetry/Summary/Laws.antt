-- ===== src/Telemetry/Summary/Laws.antt =====
-- src/modules/telemetry/aggregate.rs: what the counters of a summary mean.
use native.Mathlib.Nat.{div-le_of_le-mul}
use tokensaver.Prelude.{
  ℕ, ◌+◌, ◌*◌, ◌/◌, ◌≤◌, ◌<◌, min, ◌≡◌, refl, sym, ◌∙◌, ◌⊎◌, inl, inr, Bool, Option, none, some,
  List, [], ◌∷◌, ◌++◌, arith, ◌==◌, if◌then◌else◌, Bool-cases, length, u64_max, saturating_add,
  saturating_mul,
}
use tokensaver.Telemetry.Model.{
  OptimizationOutcome, OptimizationEvent, OptimizationMetrics, ProviderUsage, disabled, bypassed,
  native_passthrough, aged,
}
use tokensaver.Telemetry.Summary.{
  ProviderCacheSummary, SavingsSummary, SavingsLedger, count_outcome, add_metrics, add_usage,
  observe, observe_cache, rate, default_summary, summarize_loop, summarize, rate_basis_points,
  cache_rate_basis_points, record_event, select, for_session,
}

abbrev pub classified : SavingsSummary → ℕ
classified s =
    s.aged_requests + s.disabled_requests + s.bypassed_requests + s.native_passthrough_requests
    + s.fail_original_requests + s.no_eligible_requests + s.no_savings_requests

count_outcome-classified :
    (outcome : OptimizationOutcome) (s : SavingsSummary)
    → s.events ≡ classified s
    → s.events < u64_max
    → ((count_outcome outcome s).events ≡ s.events + 1)
      × (classified (count_outcome outcome s) ≡ s.events + 1)
unfolding count_outcome saturating_add
count_outcome-classified disabled s h room = (omega arith, omega arith)
count_outcome-classified _ s h room = (omega arith, omega arith)

add_usage-classified :
    (outcome : OptimizationOutcome) (usage : Option ProviderUsage) (s : SavingsSummary)
    → ((add_usage outcome usage s).events ≡ s.events)
      × (classified (add_usage outcome usage s) ≡ classified s)
unfolding add_usage
add_usage-classified outcome none s = (refl, refl)
add_usage-classified aged (some usage) s = (refl, refl)
add_usage-classified _ (some usage) s = (refl, refl)

observe-classified :
    (s : SavingsSummary) (event : OptimizationEvent)
    → s.events ≡ classified s
    → s.events < u64_max
    → ((observe s event).events ≡ s.events + 1) × (classified (observe s event) ≡ s.events + 1)
unfolding observe
observe-classified s event h room =
    let counted = count_outcome event.outcome s in
    let (events, kinds) = count_outcome-classified event.outcome s h room in
    let (same_events, same_kinds) =
      add_usage-classified event.outcome event.provider_usage (add_metrics event.metrics counted) in
    (same_events ∙ unfold add_metrics in events, same_kinds ∙ unfold add_metrics in kinds)

summarize_loop-classified :
    (s : SavingsSummary) (events : List OptimizationEvent)
    → s.events ≡ classified s
    → s.events + length events ≤ u64_max
    → ((summarize_loop s events).events ≡ s.events + length events)
      × (classified (summarize_loop s events) ≡ s.events + length events)
unfolding summarize_loop
summarize_loop-classified s [] h room = (omega arith, omega arith)
summarize_loop-classified s (event ∷ events) h room =
    let step = observe-classified s event h (omega arith) in
    let rest =
      summarize_loop-classified (observe s event) events (step.0 ∙ sym step.1) (omega arith) in
    (omega arith, omega arith)

-- A summary of at most 2^64 - 1 events counts every event once, and under exactly one outcome.
pub summarize-classified :
    (events : List OptimizationEvent)
    → length events ≤ u64_max
    → ((summarize events).events ≡ length events) × (classified (summarize events) ≡ length events)
unfolding summarize
summarize-classified events room =
    let h = summarize_loop-classified default_summary events refl (omega arith) in
    (omega arith, omega arith)

abbrev IsCapped : ProviderCacheSummary → Type 0
IsCapped cache = cache.cached_input_tokens ≤ cache.input_tokens

-- No summary claims more cached tokens than input tokens, saturated or not.
pub record IsConsistent (s : SavingsSummary) : Type 0 where
  pub provider : s.provider_cached_input_tokens ≤ s.provider_input_tokens
  pub aged_ones : IsCapped s.aged_cache
  pub unaged_ones : IsCapped s.unaged_cache

observe_cache-IsCapped :
    (input cached : ℕ) (cache : ProviderCacheSummary)
    → IsCapped cache
    → IsCapped (observe_cache input cached cache)
unfolding observe_cache saturating_add
observe_cache-IsCapped input cached cache h = omega arith

add_usage-IsConsistent :
    (outcome : OptimizationOutcome) (usage : Option ProviderUsage) (s : SavingsSummary)
    → IsConsistent s
    → IsConsistent (add_usage outcome usage s)
unfolding add_usage
add_usage-IsConsistent outcome none s h = h
add_usage-IsConsistent aged (some usage) s h = record {
  provider = unfold saturating_add in omega arith;
  aged_ones =
      observe_cache-IsCapped usage.input_tokens usage.cached_input_tokens s.aged_cache h.aged_ones;
  unaged_ones = h.unaged_ones;
}
add_usage-IsConsistent bypassed (some usage) s h = record {
  provider = unfold saturating_add in omega arith;
  aged_ones = h.aged_ones;
  unaged_ones = h.unaged_ones;
}
add_usage-IsConsistent native_passthrough (some usage) s h = record {
  provider = unfold saturating_add in omega arith;
  aged_ones = h.aged_ones;
  unaged_ones = h.unaged_ones;
}
add_usage-IsConsistent _ (some usage) s h = record {
  provider = unfold saturating_add in omega arith;
  aged_ones = h.aged_ones;
  unaged_ones =
      observe_cache-IsCapped usage.input_tokens usage.cached_input_tokens s.unaged_cache
        h.unaged_ones;
}

count_outcome-IsConsistent :
    (outcome : OptimizationOutcome) (s : SavingsSummary)
    → IsConsistent s
    → IsConsistent (count_outcome outcome s)
unfolding count_outcome
count_outcome-IsConsistent disabled s h = record {
  provider = h.provider;
  aged_ones = h.aged_ones;
  unaged_ones = h.unaged_ones;
}
count_outcome-IsConsistent _ s h = record {
  provider = h.provider;
  aged_ones = h.aged_ones;
  unaged_ones = h.unaged_ones;
}

add_metrics-IsConsistent :
    (metrics : OptimizationMetrics) (s : SavingsSummary)
    → IsConsistent s
    → IsConsistent (add_metrics metrics s)
unfolding add_metrics
add_metrics-IsConsistent metrics s h = record {
  provider = h.provider;
  aged_ones = h.aged_ones;
  unaged_ones = h.unaged_ones;
}

pub observe-IsConsistent :
    (s : SavingsSummary) (event : OptimizationEvent)
    → IsConsistent s
    → IsConsistent (observe s event)
unfolding observe
observe-IsConsistent s event h =
    add_usage-IsConsistent event.outcome event.provider_usage _
      (add_metrics-IsConsistent event.metrics _ (count_outcome-IsConsistent event.outcome s h))

summarize_loop-IsConsistent :
    (s : SavingsSummary) (events : List OptimizationEvent)
    → IsConsistent s
    → IsConsistent (summarize_loop s events)
unfolding summarize_loop
summarize_loop-IsConsistent s [] h = h
summarize_loop-IsConsistent s (event ∷ events) h =
    summarize_loop-IsConsistent (observe s event) events (observe-IsConsistent s event h)

rate-le : (cached input r : ℕ) → cached ≤ input → rate cached input ≡ some r → r ≤ 10000
unfolding rate saturating_mul
rate-le cached input r h e = elim (Bool-cases (input == 0)) [
  | inl nothing ↦ let bad = rw nothing at e in cc
  | inr something ↦
      let same = rw something at e in
      let exact : min (cached * 10000) u64_max / input ≡ r = cc in
      rw (← exact) (div-le_of_le-mul input (omega arith))
]

-- A cache rate is at most 10000 basis points: the overall one, the one of requests that were aged
-- and the one of those that were not.
pub summarize-rate-le :
    (events : List OptimizationEvent) (r : ℕ)
    → ((cache_rate_basis_points (summarize events) ≡ some r)
        ⊎ (rate_basis_points (summarize events).aged_cache ≡ some r)
        ⊎ (rate_basis_points (summarize events).unaged_cache ≡ some r))
    → r ≤ 10000
unfolding summarize cache_rate_basis_points rate_basis_points
summarize-rate-le events r e =
    let h = summarize_loop-IsConsistent default_summary events (omega arith) in
    elim e [
      | inl overall ↦ rate-le _ _ r h.provider overall
      | inr (inl aged_rate) ↦ rate-le _ _ r h.aged_ones aged_rate
      | inr (inr unaged_rate) ↦ rate-le _ _ r h.unaged_ones unaged_rate
    ]

select-append :
    (test : OptimizationEvent → Bool) (xs ys : List OptimizationEvent)
    → select test (xs ++ ys) ≡ select test xs ++ select test ys
unfolding select
select-append test [] ys = refl
select-append test (x ∷ xs) ys = ground (arith, select-append test xs ys)

summarize_loop-append :
    (s : SavingsSummary) (xs ys : List OptimizationEvent)
    → summarize_loop s (xs ++ ys) ≡ summarize_loop (summarize_loop s xs) ys
unfolding summarize_loop
summarize_loop-append s [] ys = refl
summarize_loop-append s (x ∷ xs) ys = summarize_loop-append (observe s x) xs ys

-- Recording an event brings the summary of its own session forward by that event, and leaves the
-- summary of every other session as it was.
pub for_session-record_event :
    (ledger : SavingsLedger) (event : OptimizationEvent) (session : ℕ)
    → for_session (record_event ledger event) session ≡ (
        if event.session_id == session
        then observe (for_session ledger session) event
        else for_session ledger session)
unfolding for_session record_event summarize summarize_loop
for_session-record_event ledger event session =
    let test = λ (e : OptimizationEvent). e.session_id == session in
    rw (select-append test ledger.events (event ∷ [])) (
      rw
        (summarize_loop-append default_summary (select test ledger.events)
          (select test (event ∷ [])))
        (elim (Bool-cases (event.session_id == session)) [
          | inl own ↦ rw own
          | inr foreign ↦ rw foreign
        ]))

count_outcome-events :
    (outcome : OptimizationOutcome) (s : SavingsSummary)
    → (count_outcome outcome s).events ≡ min (s.events + 1) u64_max
unfolding count_outcome saturating_add
count_outcome-events disabled s = refl
count_outcome-events _ s = refl

observe-events :
    (s : SavingsSummary) (event : OptimizationEvent)
    → (observe s event).events ≡ min (s.events + 1) u64_max
unfolding observe
observe-events s event =
    let counted = count_outcome-events event.outcome s in
    (add_usage-classified event.outcome event.provider_usage
      (add_metrics event.metrics (count_outcome event.outcome s))).0
    ∙ unfold add_metrics in counted

-- the events of a session
abbrev pub count_session : ℕ → List OptimizationEvent → ℕ
count_session session_id [] = 0
count_session session_id (event ∷ events) =
    (if event.session_id == session_id then 1 else 0) + count_session session_id events

summarize_loop-select :
    (session_id : ℕ) (s : SavingsSummary) (events : List OptimizationEvent)
    → s.events ≤ u64_max
    → (summarize_loop s (select (λ event. event.session_id == session_id) events)).events
      ≡ min (s.events + count_session session_id events) u64_max
unfolding summarize_loop select
summarize_loop-select session_id s [] h = omega arith
summarize_loop-select session_id s (event ∷ events) h =
    elim (Bool-cases (event.session_id == session_id)) [
      | inl own ↦
          let first = observe-events s event in
          let rest = summarize_loop-select session_id (observe s event) events (omega arith) in
          rw own (omega arith)
      | inr other ↦ let rest = summarize_loop-select session_id s events h in rw other (omega arith)
    ]

-- The summary of a session counts its events, up to 2^64 - 1.
pub for_session-events :
    (ledger : SavingsLedger) (session_id : ℕ)
    → (for_session ledger session_id).events ≡ min (count_session session_id ledger.events) u64_max
unfolding for_session summarize
for_session-events ledger session_id =
    let counted = summarize_loop-select session_id default_summary ledger.events (omega arith) in
    omega arith
