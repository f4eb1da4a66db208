-- ===== src/Transport/Handler.antt =====
-- src/modules/transport/server.rs: the way of one request through `handle_request` up to the
-- request that is sent upstream. What the request finds in the shared cells, the body that is read
-- within the limit, and the values of headers are arguments; an answer is its status.
pub mod Laws
use tokensaver.Prelude.{
  ℕ, ◌*◌, Bool, true, false, not, ◌&&◌, ◌||◌, Option, none, some, List, [], ◌∷◌, ◌++◌, ltb,
  if◌then◌else◌, any, u64_max, Str, codes, str_eq, strip_prefix, trim, to_ascii_lowercase, split,
  parse_unsigned, starts_with,
}
use tokensaver.Aging.Model.{AgingPolicy}
use tokensaver.Transport.Admission.{try_enter}
use tokensaver.Transport.Capability.{CallerCapability, authenticate_path}
use tokensaver.Transport.Compression.{Bytes, Codecs}
use tokensaver.Transport.Headers.{
  Headers, get, contains_key, insert, content_type, content_encoding, has_browser_origin,
  native_upstream_headers,
}
use tokensaver.Transport.Json.{Json}
use tokensaver.Transport.Request.{PreparedRequestBody, prepare_responses_body}

abbrev pub chatgpt_codex_base_url : Str
chatgpt_codex_base_url = codes "https://chatgpt.com/backend-api/codex"

abbrev pub openai_api_base_url : Str
openai_api_base_url = codes "https://api.openai.com/v1"

abbrev pub max_encoded_body_bytes : ℕ
max_encoded_body_bytes = 64 * 1024 * 1024

-- an answer with a status and no body, or what the handler goes on with
pub data Verdict (A : Type 0) : Type 0 where
  answer : ℕ → Verdict A
  pass : A → Verdict A

infixl 5 ◌>>=◌
abbrev pub ◌>>=◌ : {A B : Type 0} → Verdict A → (A → Verdict B) → Verdict B
answer status >>= rest = answer status
pass found >>= rest = rest found

infixl 5 ◌>>◌
abbrev pub ◌>>◌ : {B : Type 0} → Verdict (Unit {0}) → Verdict B → Verdict B
test >> rest = test >>= (λ _. rest)

-- `if test { return empty_response(status) }` and `let Some(found) = .. else { return .. }`
abbrev pub answer_if : Bool → ℕ → Verdict (Unit {0})
answer_if true status = answer status
answer_if false status = pass tt

abbrev pub require : {A : Type 0} → Option A → ℕ → Verdict A
require none status = answer status
require (some found) status = pass found

pub data Method : Type 0 where
  get_method post_method other_method : Method

pub data NativeRouteKind : Type 0 where
  responses compaction passthrough : NativeRouteKind

pub record NativeRoute : Type 0 where
  pub method : Method
  pub kind : NativeRouteKind

unfoldable pub same_method : Method → Method → Bool
same_method get_method get_method = true
same_method post_method post_method = true
same_method other_method other_method = true
same_method _ _ = false

is_responses : NativeRouteKind → Bool
is_responses responses = true
is_responses _ = false

abbrev pub passthrough_paths : List Str
passthrough_paths =
    codes "/v1/memories/trace_summarize"
    ∷ codes "/v1/alpha/search"
    ∷ codes "/v1/images/generations"
    ∷ codes "/v1/images/edits"
    ∷ []

unfoldable pub native_route : Str → Option NativeRoute
native_route path =
    if str_eq path (codes "/v1/responses")
    then some (record { method = post_method; kind = responses })
    else if str_eq path (codes "/v1/responses/compact")
    then some (record { method = post_method; kind = compaction })
    else if str_eq path (codes "/v1/models")
    then some (record { method = get_method; kind = passthrough })
    else if any (str_eq path) passthrough_paths
    then some (record { method = post_method; kind = passthrough })
    else none

starts_with_slash : Option Str → Option Str
starts_with_slash none = none
starts_with_slash (some path) = if starts_with (codes "/") path then some path else none

unfoldable pub upstream_path : Str → Option Str
unfolding starts_with_slash
upstream_path local_path = starts_with_slash (strip_prefix (codes "/v1") local_path)

first_piece : List Str → Option Str
first_piece [] = none
first_piece (piece ∷ _) = some piece

-- `value.split(';').next().is_some_and(|media_type| ..)`
unfoldable pub has_media_type : Str → Str → Bool
unfolding first_piece
has_media_type media_type value = elim (first_piece (split b';' value)) [
  | none ↦ false
  | some piece ↦ str_eq (to_ascii_lowercase (trim piece)) media_type
]

module _ {Value : Type 0} (to_str : Value → Option Str) where
  -- the text of the first value of a name, if there is one
  header_text : Str → Headers Value → Option Str
  header_text name headers = elim (get name headers) [ none ↦ none | some value ↦ to_str value ]

  unfoldable pub is_json_request : Headers Value → Bool
  unfolding header_text
  is_json_request headers = elim (header_text content_type headers) [
    | none ↦ false
    | some value ↦ has_media_type (codes "application/json") value
  ]

  unfoldable pub is_event_stream_response : Headers Value → Bool
  unfolding header_text
  is_event_stream_response headers = elim (header_text content_type headers) [
    | none ↦ false
    | some value ↦ has_media_type (codes "text/event-stream") value
  ]

  over_limit : Option ℕ → Bool
  over_limit none = false
  over_limit (some value) = ltb max_encoded_body_bytes value

  unfoldable pub encoded_content_length_exceeds_limit : Headers Value → Bool
  unfolding header_text over_limit
  encoded_content_length_exceeds_limit headers =
      elim (header_text (codes "content-length") headers) [
        | none ↦ false
        | some value ↦ over_limit (parse_unsigned u64_max value)
      ]

unfoldable pub native_upstream_base_url : {Value : Type 0} → Headers Value → Str
native_upstream_base_url headers =
    if contains_key (codes "chatgpt-account-id") headers
      || contains_key (codes "x-openai-fedramp") headers
    then chatgpt_codex_base_url
    else openai_api_base_url

-- `body` is what `to_bytes` gives within the limit.
pub record Inbound (Value : Type 0) : Type 0 where
  pub method : Method
  pub path : Str
  pub query : Option Str
  pub headers : Headers Value
  pub body : Option Bytes

-- what the handler finds in the shared cells, in the order in which it looks
pub record Cells : Type 0 where
  pub draining : Bool
  pub active_requests : ℕ
  pub draining_again : Bool
  pub aging_policy : AgingPolicy

pub record Upstream (Value : Type 0) : Type 0 where
  pub method : Method
  pub url : Str
  pub headers : Headers Value
  pub prepared : PreparedRequestBody

with_query : Str → Option Str → Str
with_query url none = url
with_query url (some query) = url ++ b'?' ∷ query

module _ (json : Json) (codecs : Codecs) (sha256_hex : Str → Str) {Value : Type 0}
    (to_str : Value → Option Str) (from_str : Str → Option Value) (identity : Value) where
  -- the guards on the request alone
  unfoldable pub accept : CallerCapability → Inbound Value → Verdict (Str × NativeRoute)
  unfolding is_responses
  accept capability request = do
    answer_if (has_browser_origin request.headers) 403
    local_path ← require (authenticate_path capability request.path) 404
    route ← require (native_route local_path) 404
    answer_if (is_responses route.kind && contains_key (codes "upgrade") request.headers) 426
    answer_if (not (same_method request.method route.method)) 405
    answer_if (same_method route.method post_method && not (is_json_request to_str request.headers))
        415
    answer_if (encoded_content_length_exceeds_limit to_str request.headers) 413
    pass (local_path, route)

  -- the guards on the shared cells; a guard of the counter that is held is dropped with an answer
  unfoldable pub admit : Cells → Verdict ℕ
  admit cells = do
    answer_if cells.draining 503
    active ← require (try_enter cells.active_requests) 429
    answer_if cells.draining_again 503
    pass active

  -- the text of `Content-Encoding`, which may be missing but not unreadable
  encoding_text : Option Value → Verdict (Option Str)
  encoding_text none = pass none
  encoding_text (some value) = elim (to_str value) [
    | none ↦ answer 400
    | some text ↦ pass (some text)
  ]

  with_encoding : Option Str → Headers Value → Verdict (Headers Value)
  with_encoding none headers = pass headers
  with_encoding (some text) headers = elim (from_str text) [
    | none ↦ answer 400
    | some value ↦ pass (insert content_encoding value headers)
  ]

  -- the rest, up to the request upstream
  unfoldable pub forward : Cells → Inbound Value → Str × NativeRoute → Verdict (Upstream Value)
  unfolding encoding_text with_encoding with_query
  forward cells request (local_path, route) = do
    path ← require (upstream_path local_path) 404
    encoding ← encoding_text (get content_encoding request.headers)
    body ← require request.body 413
    headers ← with_encoding encoding (native_upstream_headers identity request.headers)
    pass (record {
      method = route.method;
      url = with_query (native_upstream_base_url request.headers ++ path) request.query;
      headers = headers;
      prepared =
          prepare_responses_body json codecs sha256_hex body encoding local_path cells.aging_policy;
    })

  unfoldable pub handle : CallerCapability → Cells → Inbound Value → Verdict (Upstream Value)
  handle capability cells request = do
    accepted ← accept capability request
    active ← admit cells
    forward cells request accepted
