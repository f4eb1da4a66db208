-- ===== src/Transport/Usage/Laws.antt =====
-- src/modules/transport/response_usage.rs: the observer does not depend on how the response is
-- cut into chunks, and its buffers are bounded.
use mathlib.Core.List.{append_assoc, append-nil}
use mathlib.Core.Path.{subst}
use tokensaver.Prelude.{
  ℕ, suc, ◌+◌, ◌≤◌, ◌≡◌, refl, sym, ap, ◌∙◌, inl, inr, Bool, true, false, not, ◌&&◌, ◌||◌, Option,
  none, some, List, [], ◌∷◌, ◌++◌, arith, leb, ◌==◌, if◌then◌else◌, Bool-cases, Option-cases,
  length, length-append, All, codes, str_eq, strip_prefix,
}
use tokensaver.Transport.Json.{Json}
use tokensaver.Transport.Usage.{
  ProviderUsageObservation, ResponseUsageCollector, max_json_capture_bytes, max_sse_line_bytes,
  or_else, observe_json, counted_usage, observe_data, observe_sse_line, strip_cr, too_long,
  usage_from_value, usage_of, usage_from_payload, usage_from_bytes, observe_byte, observe_sse,
  observe, newline, new, trim_ascii_start, finish,
}

-- The buffers are within the source's limits.
abbrev pub IsBounded : ResponseUsageCollector → Type 0
IsBounded c =
    (length c.json_capture ≤ max_json_capture_bytes) × (length c.sse_line ≤ max_sse_line_bytes)

-- the cached tokens are among the input tokens
abbrev IsCapped : Option ProviderUsageObservation → Type 0
IsCapped usage =
    (u : ProviderUsageObservation) → usage ≡ some u → u.cached_input_tokens ≤ u.input_tokens

-- what the observer's buffers hold does not change
abbrev SameBuffers : ResponseUsageCollector → ResponseUsageCollector → Type 0
SameBuffers c d =
    (d.json_capture ≡ c.json_capture)
    × (d.sse_line ≡ c.sse_line)
    × (d.event_stream ≡ c.event_stream)
    × (d.sse_line_overflowed ≡ c.sse_line_overflowed)

or_else-IsCapped :
    (a b : Option ProviderUsageObservation) → IsCapped a → IsCapped b → IsCapped (or_else a b)
unfolding or_else
or_else-IsCapped none b h k = k
or_else-IsCapped (some a) b h k = h

too_long-false : (n : ℕ) → too_long n ≡ false → n ≤ max_json_capture_bytes
unfolding too_long
too_long-false n h = ground arith

too_long_mono : (m n : ℕ) → m ≤ n → too_long m ≡ true → too_long n ≡ true
unfolding too_long
too_long_mono m n h k = ground arith

-- two chunks that are captured one by one, with the observer's fields apart
observe_json-append_at :
    (first second : List ℕ) (event_stream : Bool) (capture : List ℕ) (overflowed : Bool)
    (line : List ℕ) (line_overflowed : Bool) (usage : Option ProviderUsageObservation)
    → let c : ResponseUsageCollector = record {
      event_stream = event_stream;
      json_capture = capture;
      json_overflowed = overflowed;
      sse_line = line;
      sse_line_overflowed = line_overflowed;
      usage = usage;
    } in
      observe_json (first ++ second) c ≡ observe_json second (observe_json first c)
unfolding observe_json
observe_json-append_at first second event_stream capture true line line_overflowed usage = refl
observe_json-append_at first second event_stream capture false line line_overflowed usage =
    elim (Bool-cases (too_long (length capture + length first))) [
      | inl long ↦
          let longer =
            too_long_mono (length capture + length first)
              (length capture + length (first ++ second))
              (rw (length-append first second) (omega arith)) long in
          rw long (rw longer refl)
      | inr fits ↦
          let summed : length capture + (length first + length second)
              ≡ length capture + length first + length second =
            omega arith in
          rw fits (
            rw (length-append first second) (
              rw (length-append capture first)
                (rw summed (rw (append_assoc capture first second) refl))))
    ]

IsCapped-if :
    (b : Bool) (c d : ResponseUsageCollector)
    → IsCapped c.usage
    → IsCapped d.usage
    → IsCapped (if b then c else d).usage
IsCapped-if true c d h k = h
IsCapped-if false c d h k = k

observe_json-usage :
    (chunk : List ℕ) (c : ResponseUsageCollector) → (observe_json chunk c).usage ≡ c.usage
unfolding observe_json
observe_json-usage chunk c = ground arith

observe_json-append :
    (first second : List ℕ) (c : ResponseUsageCollector)
    → observe_json (first ++ second) c ≡ observe_json second (observe_json first c)
unfolding observe_json
observe_json-append first second c =
    observe_json-append_at first second c.event_stream c.json_capture c.json_overflowed c.sse_line
      c.sse_line_overflowed c.usage

observe_json-event_stream :
    (chunk : List ℕ) (c : ResponseUsageCollector)
    → (observe_json chunk c).event_stream ≡ c.event_stream
unfolding observe_json
observe_json-event_stream chunk c = ground arith

observe_json-IsBounded :
    (chunk : List ℕ) (c : ResponseUsageCollector) → IsBounded c → IsBounded (observe_json chunk c)
unfolding observe_json
observe_json-IsBounded chunk c h =
    elim (Bool-cases (too_long (length c.json_capture + length chunk))) [
      | inl long ↦ ground arith
      | inr fits ↦
          let bound = too_long-false (length c.json_capture + length chunk) fits in
          let joined = length-append c.json_capture chunk in ground arith
    ]

module _ (json : Json) where
  observe_sse_line-SameBuffers :
      (line : List ℕ) (c : ResponseUsageCollector) → SameBuffers c (observe_sse_line json line c)
  unfolding observe_sse_line observe_data
  observe_sse_line-SameBuffers line c =
      elim (Option-cases (strip_prefix (codes "data:") (strip_cr line))) [
        | inl h ↦ rw (h, observe_sse_line) (refl, refl, refl, refl)
        | inr (rest, h) ↦ rw (h, observe_sse_line) (ground arith)
      ]

  counted_usage-IsCapped :
      (usage : json.Value) (input output : Option ℕ)
      → IsCapped (counted_usage json usage input output)
  unfolding counted_usage
  counted_usage-IsCapped usage none none u h = cc
  counted_usage-IsCapped usage (some i) none u h = ground arith
  counted_usage-IsCapped usage none (some o) u h = ground arith
  counted_usage-IsCapped usage (some i) (some o) u h = ground arith

  usage_from_value-IsCapped : (usage : json.Value) → IsCapped (usage_from_value json usage)
  unfolding usage_from_value
  usage_from_value-IsCapped usage = counted_usage-IsCapped usage _ _

  usage_of-IsCapped : (candidate : Option json.Value) → IsCapped (usage_of json candidate)
  unfolding usage_of
  usage_of-IsCapped none u h = cc
  usage_of-IsCapped (some candidate) u h = usage_from_value-IsCapped candidate u h

  usage_from_bytes-IsCapped : (bytes : List ℕ) → IsCapped (usage_from_bytes json bytes)
  unfolding usage_from_bytes usage_from_payload
  usage_from_bytes-IsCapped bytes = elim (Option-cases (json.from_slice bytes)) [
    | inl h ↦ rw (h, usage_from_bytes) (λ u e. cc)
    | inr (payload, h) ↦
        rw (h, usage_from_bytes) (or_else-IsCapped _ _ (usage_of-IsCapped _) (usage_of-IsCapped _))
  ]

  observe_data-IsCapped :
      (payload : List ℕ) (c : ResponseUsageCollector)
      → IsCapped c.usage
      → IsCapped (observe_data json payload c).usage
  unfolding observe_data
  observe_data-IsCapped payload c h =
      elim (Bool-cases (str_eq payload (codes "[DONE]") || str_eq payload [])) [
        | inl skipped ↦ rw skipped h
        | inr read ↦ rw read (
            or_else-IsCapped (usage_from_bytes json payload) c.usage
              (usage_from_bytes-IsCapped payload) h)
      ]

  observe_byte-IsBounded :
      (byte : ℕ) (c : ResponseUsageCollector) → IsBounded c → IsBounded (observe_byte json byte c)
  unfolding observe_byte
  observe_byte-IsBounded byte c h =
      let (same, line, stream, over) =
        observe_sse_line-SameBuffers c.sse_line (record c { sse_line = [] }) in
      let joined = length-append c.sse_line (byte ∷ []) in ground arith

  observe_sse-IsBounded :
      (chunk : List ℕ) (c : ResponseUsageCollector)
      → IsBounded c
      → IsBounded (observe_sse json chunk c)
  unfolding observe_sse
  observe_sse-IsBounded [] c h = h
  observe_sse-IsBounded (byte ∷ chunk) c h =
      observe_sse-IsBounded chunk (observe_byte json byte c) (observe_byte-IsBounded byte c h)

  observe_sse-append :
      (first second : List ℕ) (c : ResponseUsageCollector)
      → observe_sse json (first ++ second) c ≡ observe_sse json second (observe_sse json first c)
  unfolding observe_sse
  observe_sse-append [] second c = refl
  observe_sse-append (byte ∷ first) second c =
      observe_sse-append first second (observe_byte json byte c)

  observe_byte-event_stream :
      (byte : ℕ) (c : ResponseUsageCollector)
      → (observe_byte json byte c).event_stream ≡ c.event_stream
  unfolding observe_byte
  observe_byte-event_stream byte c =
      let (same, line, stream, over) =
        observe_sse_line-SameBuffers c.sse_line (record c { sse_line = [] }) in
      ground arith

  observe_sse-event_stream :
      (chunk : List ℕ) (c : ResponseUsageCollector)
      → (observe_sse json chunk c).event_stream ≡ c.event_stream
  unfolding observe_sse
  observe_sse-event_stream [] c = refl
  observe_sse-event_stream (byte ∷ chunk) c =
      observe_sse-event_stream chunk (observe_byte json byte c) ∙ observe_byte-event_stream byte c

  observe-stream :
      (chunk : List ℕ) (c : ResponseUsageCollector)
      → c.event_stream ≡ true
      → observe json chunk c ≡ observe_sse json chunk c
  unfolding observe
  observe-stream chunk c =
      ap (λ stream. if stream then observe_sse json chunk c else observe_json chunk c)

  observe-whole :
      (chunk : List ℕ) (c : ResponseUsageCollector)
      → c.event_stream ≡ false
      → observe json chunk c ≡ observe_json chunk c
  unfolding observe
  observe-whole chunk c =
      ap (λ stream. if stream then observe_sse json chunk c else observe_json chunk c)

  -- A response that is observed in two chunks leaves the observer as one chunk does.
  pub observe-append :
      (first second : List ℕ) (c : ResponseUsageCollector)
      → observe json (first ++ second) c ≡ observe json second (observe json first c)
  observe-append first second c = elim (Bool-cases c.event_stream) [
    | inl stream ↦
        let after = observe_sse-event_stream first c ∙ stream in
        let left = observe-stream (first ++ second) c stream in
        let here = observe-stream first c stream in
        let right = observe-stream second (observe_sse json first c) after in
        let apart = observe_sse-append first second c in cc
    | inr whole ↦
        let after = observe_json-event_stream first c ∙ whole in
        let left = observe-whole (first ++ second) c whole in
        let here = observe-whole first c whole in
        let right = observe-whole second (observe_json first c) after in
        let apart = observe_json-append first second c in cc
  ]

  -- The observer's buffers stay within the source's limits, whatever chunk arrives.
  pub observe-IsBounded :
      (chunk : List ℕ) (c : ResponseUsageCollector) → IsBounded c → IsBounded (observe json chunk c)
  observe-IsBounded chunk c h = elim (Bool-cases c.event_stream) [
    | inl stream ↦ rw (observe-stream chunk c stream) (observe_sse-IsBounded chunk c h)
    | inr whole ↦ rw (observe-whole chunk c whole) (observe_json-IsBounded chunk c h)
  ]

  observe_sse_line-IsCapped :
      (line : List ℕ) (c : ResponseUsageCollector)
      → IsCapped c.usage
      → IsCapped (observe_sse_line json line c).usage
  unfolding observe_sse_line
  observe_sse_line-IsCapped line c h =
      elim (Option-cases (strip_prefix (codes "data:") (strip_cr line))) [
        | inl e ↦ rw (e, observe_sse_line) h
        | inr (rest, e) ↦
            rw (e, observe_sse_line) (observe_data-IsCapped (trim_ascii_start rest) c h)
      ]

  observe_byte-IsCapped :
      (byte : ℕ) (c : ResponseUsageCollector)
      → IsCapped c.usage
      → IsCapped (observe_byte json byte c).usage
  unfolding observe_byte
  observe_byte-IsCapped byte c h =
      IsCapped-if (byte == newline) _ _
        (IsCapped-if (not c.sse_line_overflowed) _ _
          (observe_sse_line-IsCapped c.sse_line (record c { sse_line = [] }) h) h)
        (IsCapped-if c.sse_line_overflowed _ _ h
          (IsCapped-if (leb max_sse_line_bytes (length c.sse_line)) _ _ h h))

  observe_sse-IsCapped :
      (chunk : List ℕ) (c : ResponseUsageCollector)
      → IsCapped c.usage
      → IsCapped (observe_sse json chunk c).usage
  unfolding observe_sse
  observe_sse-IsCapped [] c h = h
  observe_sse-IsCapped (byte ∷ chunk) c h =
      observe_sse-IsCapped chunk (observe_byte json byte c) (observe_byte-IsCapped byte c h)

  observe-IsCapped :
      (chunk : List ℕ) (c : ResponseUsageCollector)
      → IsCapped c.usage
      → IsCapped (observe json chunk c).usage
  observe-IsCapped chunk c h = elim (Bool-cases c.event_stream) [
    | inl stream ↦ rw (observe-stream chunk c stream) (observe_sse-IsCapped chunk c h)
    | inr whole ↦ rw (observe-whole chunk c whole) (rw (observe_json-usage chunk c) h)
  ]

  IsCapped-choose :
      (b : Bool) (p q : Option ProviderUsageObservation)
      → IsCapped p
      → IsCapped q
      → IsCapped (if b then p else q)
  IsCapped-choose true p q h k = h
  IsCapped-choose false p q h k = k

  finish_lem : (c : ResponseUsageCollector) → IsCapped c.usage → IsCapped (finish json c)
  unfolding finish
  finish_lem c h =
      IsCapped-choose c.event_stream _ _
        (IsCapped-choose (not (str_eq c.sse_line []) && not c.sse_line_overflowed) _ _
          (observe_sse_line-IsCapped c.sse_line (record c { sse_line = [] }) h) h)
        (IsCapped-choose (not c.json_overflowed) _ _
          (or_else-IsCapped _ c.usage (usage_from_bytes-IsCapped c.json_capture) h) h)

  -- In the usage that a response reports, the cached tokens are among the input tokens.
  pub finish-cached-le :
      (event_stream : Bool) (chunk : List ℕ) (u : ProviderUsageObservation)
      → finish json (observe json chunk (new event_stream)) ≡ some u
      → u.cached_input_tokens ≤ u.input_tokens
  unfolding new
  finish-cached-le event_stream chunk =
      finish_lem (observe json chunk (new event_stream))
        (observe-IsCapped chunk (new event_stream) (λ u h. cc))

  -- an overlong line, up to its end
  observe_sse-overflowed :
      (line : List ℕ) (c : ResponseUsageCollector)
      → All (λ b. (b == newline) ≡ false) line
      → observe_sse json
          (line ++ newline ∷ [])
          (record c { sse_line = []; sse_line_overflowed = true })
        ≡ record c { sse_line = []; sse_line_overflowed = false }
  unfolding observe_sse observe_byte
  observe_sse-overflowed [] c h = refl
  observe_sse-overflowed (b ∷ line) c (inside, h) =
      rw (inside, observe_sse) (observe_sse-overflowed line c h)

  -- a line of which `held` is in the buffer, up to its end
  observe_sse-held :
      (line held : List ℕ) (c : ResponseUsageCollector)
      → All (λ b. (b == newline) ≡ false) line
      → length held ≤ max_sse_line_bytes
      → observe_sse json
          (line ++ newline ∷ [])
          (record c { sse_line = held; sse_line_overflowed = false })
        ≡ (if leb (length held + length line) max_sse_line_bytes
            then record (observe_sse_line json
                (held ++ line)
                (record c { sse_line = []; sse_line_overflowed = false })) {
                  sse_line_overflowed = false;
                }
            else record c { sse_line = []; sse_line_overflowed = false })
  unfolding observe_sse observe_byte
  observe_sse-held [] held c h fits =
      let within : leb (length held + 0) max_sse_line_bytes ≡ true = ground arith in
      rw within (rw (append-nil held) refl)
  observe_sse-held (b ∷ line) held c (inside, h) fits =
      elim (Bool-cases (leb max_sse_line_bytes (length held))) [
        | inl full ↦
            let beyond : leb (length held + suc (length line)) max_sse_line_bytes ≡ false =
              ground arith in
            rw (inside, full, beyond, observe_sse) (observe_sse-overflowed line c h)
        | inr room ↦
            let longer = length-append held (b ∷ []) in
            let fits' : length (held ++ b ∷ []) ≤ max_sse_line_bytes = ground arith in
            let next = observe_sse-held line (held ++ b ∷ []) c h fits' in
            let count : length (held ++ b ∷ []) + length line ≡ length held + suc (length line) =
              omega arith in
            rw (inside, room, observe_sse)
              (rw next (rw count (rw (append_assoc held (b ∷ []) line) refl)))
      ]

  -- At the start of a line, bytes without a newline and then a newline are read as one line where
  -- they are within the limit, and leave the observer as it was where they are more.
  pub observe_sse-line :
      (line : List ℕ) (c : ResponseUsageCollector)
      → All (λ b. (b == newline) ≡ false) line
      → c.sse_line ≡ []
      → c.sse_line_overflowed ≡ false
      → observe_sse json (line ++ newline ∷ []) c
        ≡ (if leb (length line) max_sse_line_bytes then observe_sse_line json line c else c)
  observe_sse-line line c h empty fresh =
      let zero_add : 0 + length line ≡ length line = omega arith in
      let start : record c { sse_line = []; sse_line_overflowed = false } ≡ c =
        ap (λ l. record c { sse_line = l; sse_line_overflowed = false }) (sym empty)
        ∙ ap (λ o. record c { sse_line_overflowed = o }) (sym fresh) in
      let (capture, line', stream, over) = observe_sse_line-SameBuffers line c in
      let after : record (observe_sse_line json line c) { sse_line_overflowed = false }
          ≡ observe_sse_line json line c =
        ap (λ o. record (observe_sse_line json line c) { sse_line_overflowed = o })
          (sym (over ∙ fresh)) in
      let held =
        subst
          (λ d. observe_sse json (line ++ newline ∷ []) d ≡ (
            if leb (0 + length line) max_sse_line_bytes
            then record (observe_sse_line json line d) { sse_line_overflowed = false }
            else d))
          start (observe_sse-held line [] c h (omega arith)) in
      subst
        (λ n.
          observe_sse json (line ++ newline ∷ []) c
          ≡ (if leb n max_sse_line_bytes then observe_sse_line json line c else c))
        zero_add (held ∙ ap (λ d. if leb (0 + length line) max_sse_line_bytes then d else c) after)
