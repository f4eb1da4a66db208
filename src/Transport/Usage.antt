-- ===== src/Transport/Usage.antt =====
-- src/modules/transport/response_usage.rs: the read-only observer of a response, which gets a copy
-- of every chunk and finds the usage that the provider reports.
pub mod Laws
use tokensaver.Prelude.{
  ℕ, ◌+◌, ◌*◌, Bool, true, false, not, ◌&&◌, ◌||◌, Option, none, some, List, [], ◌∷◌, ◌++◌, ltb,
  leb, ◌==◌, if◌then◌else◌, length, u64_max, Str, codes, str_eq, strip_prefix,
}
use Prim.Native.Nat.{min}
use tokensaver.Transport.Json.{Json}

pub record ProviderUsageObservation : Type 0 where
  pub input_tokens : ℕ
  pub cached_input_tokens : ℕ
  pub output_tokens : ℕ

pub record ResponseUsageCollector : Type 0 where
  pub event_stream : Bool
  pub json_capture : List ℕ
  pub json_overflowed : Bool
  pub sse_line : List ℕ
  pub sse_line_overflowed : Bool
  pub usage : Option ProviderUsageObservation

abbrev pub max_json_capture_bytes : ℕ
max_json_capture_bytes = 8 * 1024 * 1024

abbrev pub max_sse_line_bytes : ℕ
max_sse_line_bytes = 1024 * 1024

abbrev pub newline : ℕ
newline = 10

abbrev carriage_return : ℕ
carriage_return = 13

-- `ResponseUsageCollector::new`
unfoldable pub new : Bool → ResponseUsageCollector
new event_stream = record {
  event_stream = event_stream;
  json_capture = [];
  json_overflowed = false;
  sse_line = [];
  sse_line_overflowed = false;
  usage = none;
}

-- `u8::is_ascii_whitespace`
is_ascii_whitespace : ℕ → Bool
is_ascii_whitespace b = b == 32 || b == 9 || b == 10 || b == 12 || b == 13

unfoldable pub trim_ascii_start : List ℕ → List ℕ
unfolding is_ascii_whitespace
trim_ascii_start [] = []
trim_ascii_start (first ∷ rest) =
    let trimmed = trim_ascii_start rest in
    if is_ascii_whitespace first then trimmed else first ∷ rest

-- `line.strip_suffix(b"\r").unwrap_or(line)`
strip_cr : List ℕ → List ℕ
strip_cr [] = []
strip_cr (b ∷ []) = if b == carriage_return then [] else b ∷ []
strip_cr (b ∷ c ∷ rest) = b ∷ strip_cr (c ∷ rest)

or_else : {A : Type 0} → Option A → Option A → Option A
or_else (some a) _ = some a
or_else none other = other

-- `unwrap_or(0)`
or_zero : Option ℕ → ℕ
or_zero none = 0
or_zero (some n) = n

-- what is held would be longer than a `usize` or than the limit
too_long : ℕ → Bool
too_long next_len = ltb u64_max next_len || ltb max_json_capture_bytes next_len

observe_json : List ℕ → ResponseUsageCollector → ResponseUsageCollector
unfolding too_long
observe_json chunk c =
    if c.json_overflowed
    then c
    else if too_long (length c.json_capture + length chunk)
    then record c { json_overflowed = true; json_capture = [] }
    else record c { json_capture = c.json_capture ++ chunk }

module _ (json : Json) where
  open json use {Value, from_slice, get, as_u64}

  -- `token_count(value)`
  token_count : Option Value → Option ℕ
  token_count none = none
  token_count (some value) = as_u64 value

  -- `value.get(key)` of an optional value
  member : Str → Option Value → Option Value
  member key none = none
  member key (some value) = get key value

  -- `usage.pointer("/<details>/cached_tokens").and_then(token_count_value)`
  cached_tokens : Str → Value → Option ℕ
  unfolding token_count member
  cached_tokens details usage = token_count (member (codes "cached_tokens") (get details usage))

  counted_usage : Value → Option ℕ → Option ℕ → Option ProviderUsageObservation
  unfolding cached_tokens or_else or_zero
  counted_usage usage none none = none
  counted_usage usage input_tokens output_tokens =
      let input = or_zero input_tokens in
      let cached = or_else (cached_tokens (codes "input_tokens_details") usage) (
        or_else (cached_tokens (codes "prompt_tokens_details") usage)
          (token_count (get (codes "prompt_cache_hit_tokens") usage))) in
      some (record {
        input_tokens = input;
        cached_input_tokens = min (or_zero cached) input;
        output_tokens = or_zero output_tokens;
      })

  unfoldable pub usage_from_value : Value → Option ProviderUsageObservation
  unfolding counted_usage
  usage_from_value usage =
      counted_usage usage
        (or_else (token_count (get (codes "input_tokens") usage))
          (token_count (get (codes "prompt_tokens") usage)))
        (or_else (token_count (get (codes "output_tokens") usage))
          (token_count (get (codes "completion_tokens") usage)))

  usage_of : Option Value → Option ProviderUsageObservation
  unfolding usage_from_value
  usage_of none = none
  usage_of (some candidate) = usage_from_value candidate

  usage_from_payload : Value → Option ProviderUsageObservation
  unfolding usage_of
  usage_from_payload payload =
      or_else (usage_of (get (codes "usage") payload))
        (usage_of (member (codes "usage") (get (codes "response") payload)))

  -- the usage that a payload reports, where it is JSON and reports one
  usage_from_bytes : List ℕ → Option ProviderUsageObservation
  unfolding usage_from_payload
  usage_from_bytes bytes = elim (from_slice bytes) [
    | none ↦ none
    | some payload ↦ usage_from_payload payload
  ]

  observe_data : List ℕ → ResponseUsageCollector → ResponseUsageCollector
  unfolding usage_from_bytes
  observe_data payload c =
      if str_eq payload (codes "[DONE]") || str_eq payload []
      then c
      else record c { usage = or_else (usage_from_bytes payload) c.usage }

  unfoldable pub observe_sse_line : List ℕ → ResponseUsageCollector → ResponseUsageCollector
  unfolding observe_data strip_cr
  observe_sse_line line c = elim (strip_prefix (codes "data:") (strip_cr line)) [
    | none ↦ c
    | some payload ↦ observe_data (trim_ascii_start payload) c
  ]

  -- one turn of the loop of `observe_sse`
  observe_byte : ℕ → ResponseUsageCollector → ResponseUsageCollector
  unfolding observe_sse_line
  observe_byte byte c =
      if byte == newline
      then if not c.sse_line_overflowed
        then record (observe_sse_line c.sse_line (record c { sse_line = [] })) {
          sse_line_overflowed = false;
        }
        else record c { sse_line = []; sse_line_overflowed = false }
      else if c.sse_line_overflowed
      then c
      else if leb max_sse_line_bytes (length c.sse_line)
      then record c { sse_line = []; sse_line_overflowed = true }
      else record c { sse_line = c.sse_line ++ byte ∷ [] }

  unfoldable pub observe_sse : List ℕ → ResponseUsageCollector → ResponseUsageCollector
  unfolding observe_byte
  observe_sse [] c = c
  observe_sse (byte ∷ chunk) c = observe_sse chunk (observe_byte byte c)

  unfoldable pub observe : List ℕ → ResponseUsageCollector → ResponseUsageCollector
  unfolding observe_json
  observe chunk c = if c.event_stream then observe_sse chunk c else observe_json chunk c

  -- the usage that the whole response reports
  unfoldable pub finish : ResponseUsageCollector → Option ProviderUsageObservation
  unfolding or_else usage_from_bytes
  finish c =
      if c.event_stream
      then if not (str_eq c.sse_line []) && not c.sse_line_overflowed
        then (observe_sse_line c.sse_line (record c { sse_line = [] })).usage
        else c.usage
      else if not c.json_overflowed
      then or_else (usage_from_bytes c.json_capture) c.usage
      else c.usage
