-- ===== src/Tests/Handler.antt =====
-- Runs of src/modules/transport/server.rs: a request on its way upstream.
use tokensaver.Prelude.{
  ◌<◌, ◌≡◌, refl, false, Option, some, [], ◌∷◌, ◌++◌, Str, codes, str_eq, strip_prefix, starts_with,
}
use tokensaver.Aging.Model.{default_policy}
use tokensaver.Transport.Admission.{max_concurrent_requests, try_enter}
use tokensaver.Transport.Capability.{authenticate_path, is_api_path}
use tokensaver.Transport.Capability.Laws.{authenticate_path_iff}
use tokensaver.Transport.Handler.{
  Inbound, Cells, Upstream, NativeRoute, get_method, pass, handle, accept, admit, forward,
  native_route, upstream_path, native_upstream_base_url, encoded_content_length_exceeds_limit,
  same_method,
}
use tokensaver.Transport.Handler.Laws.{IsAccepted, IsForwarded, handle-passes}
use tokensaver.Transport.Headers.{
  get, contains_key, has_browser_origin, native_upstream_headers, get_all, without, insert,
}
use tokensaver.Transport.Request.{
  original, native_passthrough, is_responses_path, is_compaction_path, prepare_responses_body,
}
use tokensaver.Tests.Document.{documents, plain_codecs}

abbrev secret : Str
secret = codes "0123456789abcdef0123456789abcdef0123456789abcdef0123456789abcdef"

abbrev models : Str
models = codes "/v1/models"

readable : Str → Option Str
readable value = some value

no_hash : Str → Str
no_hash value = codes "00"

abbrev request : Inbound Str
request = record {
  method = get_method;
  path = b'/' ∷ secret ++ models;
  query = some (codes "limit=5");
  headers = (codes "authorization", codes "key") ∷ (codes "cookie", codes "private") ∷ [];
  body = some (1 ∷ []);
}

abbrev cells : Cells
cells = record {
  draining = false;
  active_requests = 3;
  draining_again = false;
  aging_policy = default_policy;
}

authentic : authenticate_path secret request.path ≡ some models
unfolding is_api_path str_eq starts_with strip_prefix
authentic =
    (authenticate_path_iff secret request.path models refl refl).1
      (codes "v1/models", refl, refl, refl)

sent : Upstream Str
sent = record {
  method = get_method;
  url = codes "https://api.openai.com/v1/models?limit=5";
  headers = (codes "accept-encoding", codes "identity") ∷ (codes "authorization", codes "key") ∷ [];
  prepared = original (1 ∷ []) native_passthrough;
}

passes :
    handle documents plain_codecs no_hash readable readable (codes "identity") secret cells request
    ≡ pass sent
unfolding handle accept admit forward native_route upstream_path native_upstream_base_url
    encoded_content_length_exceeds_limit get contains_key has_browser_origin native_upstream_headers
    is_responses_path is_compaction_path prepare_responses_body str_eq starts_with strip_prefix
    try_enter sent readable same_method insert get_all without
passes = rw (authentic, accept) refl

handle-passes_example :
    (local_path : Str) × (route : NativeRoute) × IsAccepted documents plain_codecs no_hash readable
      readable
      (codes "identity")
      secret
      request
      local_path
      route
    × (cells.draining ≡ false)
    × (cells.draining_again ≡ false)
    × (cells.active_requests < max_concurrent_requests)
    × IsForwarded documents plain_codecs no_hash readable readable (codes "identity") request sent
    × (sent.method ≡ route.method)
handle-passes_example =
    handle-passes documents plain_codecs no_hash readable readable (codes "identity") secret cells
      request sent passes
