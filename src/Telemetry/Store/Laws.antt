-- ===== src/Telemetry/Store/Laws.antt =====
-- src/modules/telemetry/store.rs: the day buckets of the durable store, and its file.
use mathlib.Core.Path.{subst}
use tokensaver.Prelude.{
  ◌≤◌, ◌≡◌, refl, ◌∙◌, inl, inr, Bool, true, false, Option, none, some, [], ◌∷◌, ◌++◌, ◌⊎◌, ap, All,
  arith, ltb, if◌then◌else◌, Bool-cases, length, Str, str_eq, str_ltb, str_eq-true, str_eq_sym,
  str_ltb_irrefl, str_ltb_trans, str_ltb_total,
}
use tokensaver.Telemetry.Model.{OptimizationEvent}
use tokensaver.Telemetry.Summary.{SavingsSummary, observe}
use tokensaver.Telemetry.Store.{
  ok, contents, max_daily_buckets, Daily, DurableSavingsStore, observe_day, drop_oldest,
  record_savings, lookup_day, or_default, store_schema_version, PersistentSavings, open_store,
  for_day, flush,
}

length-drop_oldest : (daily : Daily) → length (drop_oldest daily) ≤ max_daily_buckets
unfolding drop_oldest
length-drop_oldest [] = omega arith
length-drop_oldest (entry ∷ daily) = ground (arith, length-drop_oldest daily)

-- After any event the store holds at most 120 days.
pub record_savings-le :
    (store : DurableSavingsStore) (event : OptimizationEvent) (day : Str)
    → length (record_savings store event day).state.daily ≤ max_daily_buckets
unfolding record_savings
record_savings-le store event day = length-drop_oldest (observe_day day event store.state.daily)

-- Nothing is dropped while there are at most 120 days.
drop_oldest-eq : (daily : Daily) → length daily ≤ max_daily_buckets → drop_oldest daily ≡ daily
unfolding drop_oldest
drop_oldest-eq [] h = refl
drop_oldest-eq (entry ∷ daily) h = ground arith

-- The days in strictly rising order, as the keys of a `BTreeMap` are.
abbrev pub AboveDay : Str → Daily → Type 0
AboveDay day [] = Unit
AboveDay day ((key, _) ∷ daily) = str_ltb day key ≡ true

abbrev pub IsSortedDays : Daily → Type 0
IsSortedDays [] = Unit
IsSortedDays ((key, _) ∷ daily) = AboveDay key daily × IsSortedDays daily

AboveDay-trans :
    (day key : Str) (daily : Daily)
    → str_ltb day key ≡ true
    → AboveDay key daily
    → AboveDay day daily
AboveDay-trans day key [] h k = tt
AboveDay-trans day key ((next, _) ∷ daily) h k = str_ltb_trans day key next h k

lookup_day-above :
    (day : Str) (daily : Daily)
    → AboveDay day daily
    → IsSortedDays daily
    → lookup_day day daily ≡ none
unfolding lookup_day
lookup_day-above day [] h sorted = refl
lookup_day-above day ((key, summary) ∷ daily) h sorted = elim (Bool-cases (str_eq key day)) [
  | inl same ↦
      let e = str_eq-true key day same in
      let bad : str_ltb day day ≡ true = rw e at h in cc (bad, str_ltb_irrefl day)
  | inr other ↦
      rw other (lookup_day-above day daily (AboveDay-trans day key daily h sorted.0) sorted.1)
]

observe_day-above :
    (bound day : Str) (event : OptimizationEvent) (daily : Daily)
    → str_ltb bound day ≡ true
    → AboveDay bound daily
    → AboveDay bound (observe_day day event daily)
unfolding observe_day
observe_day-above bound day event [] h k = h
observe_day-above bound day event ((key, summary) ∷ daily) h k =
    elim (Bool-cases (str_eq key day)) [
      | inl same ↦ rw same k
      | inr other ↦ rw other (elim (Bool-cases (str_ltb day key)) [
        | inl earlier ↦ rw earlier h
        | inr later ↦ rw later k
      ])
    ]

observe_day-IsSortedDays :
    (day : Str) (event : OptimizationEvent) (daily : Daily)
    → IsSortedDays daily
    → IsSortedDays (observe_day day event daily)
unfolding observe_day
observe_day-IsSortedDays day event [] h = (tt, tt)
observe_day-IsSortedDays day event ((key, summary) ∷ daily) h = elim (Bool-cases (str_eq key day)) [
  | inl same ↦ rw same h
  | inr other ↦ rw other (elim (Bool-cases (str_ltb day key)) [
    | inl earlier ↦ rw earlier (earlier, h)
    | inr later ↦ rw later (
      observe_day-above key day event daily
          (str_ltb_total day key (str_eq_sym day key ∙ other) later) h.0,
      observe_day-IsSortedDays day event daily h.1,
    )
  ])
]

-- `day` is before every day of `daily`.
abbrev pub IsBefore : Daily → Str × SavingsSummary → Type 0
IsBefore daily (day, _) = All (λ later. str_ltb day later.0 ≡ true) daily

AboveDay-IsBefore :
    (entry : Str × SavingsSummary) (daily : Daily)
    → AboveDay entry.0 daily
    → IsSortedDays daily
    → IsBefore daily entry
AboveDay-IsBefore entry [] h sorted = tt
AboveDay-IsBefore (day, summary) ((key, next) ∷ daily) h sorted =
    (h, AboveDay-IsBefore (day, summary) daily (AboveDay-trans day key daily h sorted.0) sorted.1)

IsBefore-append :
    (old daily : Daily) (entry : Str × SavingsSummary)
    → IsBefore (old ++ daily) entry
    → IsBefore daily entry
IsBefore-append [] daily entry h = h
IsBefore-append (_ ∷ old) daily entry h = IsBefore-append old daily entry h.1

drop_oldest-split :
    (daily : Daily)
    → IsSortedDays daily
    → (old : Daily) × (daily ≡ old ++ drop_oldest daily)
      × All (IsBefore (drop_oldest daily)) old
      × ((old ≡ []) ⊎ (length (drop_oldest daily) ≡ max_daily_buckets))
unfolding drop_oldest
drop_oldest-split [] sorted = ([], refl, tt, inl refl)
drop_oldest-split (entry ∷ daily) sorted =
    elim (Bool-cases (ltb max_daily_buckets (length (entry ∷ daily)))) [
      | inr room ↦ rw room ([], refl, tt, inl refl)
      | inl full ↦
          let (old, whole, before, ends) = drop_oldest-split daily sorted.1 in
          let first : IsBefore (old ++ drop_oldest daily) entry =
            subst (λ d. IsBefore d entry) whole (AboveDay-IsBefore entry daily sorted.0 sorted.1) in
          let is_full : length (drop_oldest daily) ≡ max_daily_buckets = elim ends [
            | inr e ↦ e
            | inl nothing ↦
                let same : daily ≡ drop_oldest daily = rw nothing at whole in
                let bound = length-drop_oldest daily in let sizes = ap length same in ground arith
          ] in
          rw full (
            entry ∷ old,
            ap (λ d. entry ∷ d) whole,
            (IsBefore-append old (drop_oldest daily) entry first, before),
            inr is_full,
          )
    ]

lookup_day-observe_day :
    (day other : Str) (event : OptimizationEvent) (daily : Daily)
    → IsSortedDays daily
    → or_default (lookup_day other (observe_day day event daily)) ≡ (
        if str_eq day other
        then observe (or_default (lookup_day day daily)) event
        else or_default (lookup_day other daily))
unfolding lookup_day observe_day or_default
lookup_day-observe_day day other event [] h = ground arith
lookup_day-observe_day day other event ((key, summary) ∷ daily) h =
    elim (Bool-cases (str_eq key day)) [
      | inl same ↦ rw same (
          rw (str_eq-true key day same)
            (elim (Bool-cases (str_eq day other)) [ inl m ↦ rw m | inr m ↦ rw m ]))
      | inr differs ↦ rw differs (elim (Bool-cases (str_ltb day key)) [
        | inl earlier ↦
            rw (earlier, lookup_day-above day daily (AboveDay-trans day key daily earlier h.0) h.1)
              (elim (Bool-cases (str_eq day other)) [ inl m ↦ rw m | inr m ↦ rw m ])
        | inr later ↦ rw later (elim (Bool-cases (str_eq key other)) [
          | inl m ↦
              let e = str_eq-true key other m in
              let apart : str_eq day other ≡ false = rw e at (str_eq_sym day key ∙ differs) in
              rw (m, apart)
          | inr m ↦ rw m (lookup_day-observe_day day other event daily h.1)
        ])
      ])
    ]

-- Of the days after an event, the event's own among them, a store drops only days that are before
-- every day that it keeps, and it drops a day only where it keeps 120; the days that it keeps are
-- as they were after the event.
pub record_savings-drops_oldest :
    (store : DurableSavingsStore) (event : OptimizationEvent) (day : Str)
    → IsSortedDays store.state.daily
    → (old : Daily) × (observe_day day event store.state.daily
        ≡ old ++ (record_savings store event day).state.daily)
      × All (IsBefore (record_savings store event day).state.daily) old
      × ((old ≡ []) ⊎ (length (record_savings store event day).state.daily ≡ max_daily_buckets))
unfolding record_savings
record_savings-drops_oldest store event day h =
    drop_oldest-split _ (observe_day-IsSortedDays day event store.state.daily h)

-- While the store has room for the day, recording an event brings the summary of its day forward
-- by that event and leaves every other day as it was.
pub for_day-record_savings :
    (store : DurableSavingsStore) (event : OptimizationEvent) (day other : Str)
    → IsSortedDays store.state.daily
    → length (observe_day day event store.state.daily) ≤ max_daily_buckets
    → for_day (record_savings store event day) other
      ≡ (if str_eq day other then observe (for_day store day) event else for_day store other)
unfolding for_day record_savings
for_day-record_savings store event day other h room =
    rw (drop_oldest-eq (observe_day day event store.state.daily) room)
      (lookup_day-observe_day day other event store.state.daily h)

-- What a flush has written opens as the store that it leaves, for a codec that reads back what it
-- writes and a store of the current schema.
pub open_store-flush :
    (to_json : PersistentSavings → Option Str) (from_json : Str → Option PersistentSavings)
    (reads_back : (state : PersistentSavings) (source : Str)
      → to_json state ≡ some source
      → from_json source ≡ some state)
    (written : Bool) (store : DurableSavingsStore) (source : Str)
    → store.state.schema_version ≡ store_schema_version
    → (flush to_json written store).1 ≡ ok (some source)
    → open_store from_json (contents source) ≡ ok (flush to_json written store).0
unfolding open_store flush
open_store-flush to_json from_json reads_back written store source version h =
    ground (arith, reads_back store.state source)
