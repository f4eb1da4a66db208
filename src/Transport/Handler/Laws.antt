-- ===== src/Transport/Handler/Laws.antt =====
-- src/modules/transport/server.rs: what is known of a request that is sent upstream.
use mathlib.Core.Path.{subst}
use tokensaver.Prelude.{
  ℕ, ◌<◌, ◌≡◌, refl, sym, ap, ◌∙◌, inl, inr, Bool, true, false, not, Option, none, some, arith,
  Option-cases, Str, str_eq,
}
use tokensaver.Transport.Admission.{try_enter, max_concurrent_requests}
use tokensaver.Transport.Capability.{CallerCapability, authenticate_path}
use tokensaver.Transport.Compression.{Bytes, Codecs}
use tokensaver.Transport.Handler.{
  Verdict, answer, pass, ◌>>=◌, ◌>>◌, answer_if, require, NativeRoute, native_route, Inbound, Cells,
  Upstream, accept, admit, forward, handle, same_method, upstream_path,
  encoded_content_length_exceeds_limit, encoding_text, with_encoding,
}
use tokensaver.Transport.Headers.{
  Headers, get, content_encoding, insert-AllForwarded, native_upstream_headers,
  native_upstream_headers-AllForwarded, AllForwarded, has_browser_origin, insert,
}
use tokensaver.Transport.Json.{Json}
use tokensaver.Transport.Request.{prepare_responses_body}
use tokensaver.Transport.Request.Laws.{IsFaithful, prepare-IsFaithful}

pub first-pass :
    {A B : Type 0} {result : B} (first : Verdict A) (rest : A → Verdict B)
    → (first >>= rest) ≡ pass result
    → (found : A) × (first ≡ pass found) × (rest found ≡ pass result)
first-pass (answer status) rest passes = cc
first-pass (pass found) rest passes = (found, refl, passes)

answer_if-pass :
    {B : Type 0} {result : B} (test : Bool) (status : ℕ) (rest : Verdict B)
    → (answer_if test status >> rest) ≡ pass result
    → (test ≡ false) × (rest ≡ pass result)
answer_if-pass true status rest passes = cc
answer_if-pass false status rest passes = (refl, passes)

require-pass :
    {A B : Type 0} {result : B} (found : Option A) (status : ℕ) (rest : A → Verdict B)
    → (require found status >>= rest) ≡ pass result
    → (value : A) × (found ≡ some value) × (rest value ≡ pass result)
require-pass none status rest passes = cc
require-pass (some value) status rest passes = (value, refl, passes)

pass_inj : {A : Type 0} (a b : A) → pass a ≡ pass b → a ≡ b
pass_inj a b h = cc

not-true : (test : Bool) → not test ≡ false → test ≡ true
not-true true h = refl
not-true false h = cc

try_enter-some :
    (current next : ℕ) → try_enter current ≡ some next → current < max_concurrent_requests
unfolding try_enter
try_enter-some current next h = ground arith

module _ (json : Json) (codecs : Codecs) (sha256_hex : Str → Str) {Value : Type 0}
    (to_str : Value → Option Str) (from_str : Str → Option Value) (identity : Value) where
  pub record IsAccepted (capability : CallerCapability) (request : Inbound Value) (local_path : Str)
      (route : NativeRoute) : Type 0 where
    pub no_origin : has_browser_origin request.headers ≡ false
    pub authenticated : authenticate_path capability request.path ≡ some local_path
    pub routed : native_route local_path ≡ some route
    pub method : same_method request.method route.method ≡ true
    pub short : encoded_content_length_exceeds_limit to_str request.headers ≡ false

  accept-IsAccepted :
      (capability : CallerCapability) (request : Inbound Value) (local_path : Str)
      (route : NativeRoute)
      → accept json codecs sha256_hex to_str from_str identity capability request
        ≡ pass (local_path, route)
      → IsAccepted capability request local_path route
  unfolding accept
  accept-IsAccepted capability request local_path route passes =
      let (no_origin, h1) = answer_if-pass (has_browser_origin request.headers) 403 _ passes in
      let (found_path, authenticated, h2) =
        require-pass (authenticate_path capability request.path) 404 _ h1 in
      let (found_route, routed, h3) = require-pass (native_route found_path) 404 _ h2 in
      let (_, h4) = answer_if-pass _ 426 _ h3 in
      let (same, h5) =
        answer_if-pass (not (same_method request.method found_route.method)) 405 _ h4 in
      let (_, h6) = answer_if-pass _ 415 _ h5 in
      let (short, h7) =
        answer_if-pass (encoded_content_length_exceeds_limit to_str request.headers) 413 _ h6 in
      let found = pass_inj (found_path, found_route) (local_path, route) h7 in
      let path_is : found_path ≡ local_path = ap (λ p. p.0) found in
      let route_is : found_route ≡ route = ap (λ p. p.1) found in
      record {
        no_origin = no_origin;
        authenticated = authenticated ∙ ap some path_is;
        routed = rw (← path_is) (routed ∙ ap some route_is);
        method = rw (← route_is) (not-true (same_method request.method found_route.method) same);
        short = short;
      }

  admit-pass :
      (cells : Cells) (active : ℕ)
      → admit json codecs sha256_hex to_str from_str identity cells ≡ pass active
      → (cells.draining ≡ false)
        × (cells.draining_again ≡ false)
        × (cells.active_requests < max_concurrent_requests)
  unfolding admit
  admit-pass cells active passes =
      let (open_first, h1) = answer_if-pass cells.draining 503 _ passes in
      let (entered, room, h2) = require-pass (try_enter cells.active_requests) 429 _ h1 in
      let (open_again, _) = answer_if-pass cells.draining_again 503 _ h2 in
      (open_first, open_again, try_enter-some cells.active_requests entered room)

  with_encoding-AllForwarded :
      (encoding : Option Str) (headers after : Headers Value)
      → with_encoding json codecs sha256_hex to_str from_str identity encoding headers ≡ pass after
      → AllForwarded headers
      → AllForwarded after
  unfolding with_encoding str_eq
  with_encoding-AllForwarded none headers after passes h =
      subst AllForwarded (pass_inj headers after passes) h
  with_encoding-AllForwarded (some text) headers after passes h =
      elim (Option-cases (from_str text)) [
        | inl unreadable ↦
            let bad : answer 400 ≡ pass after = rw (unreadable, with_encoding) at passes in cc
        | inr (value, read) ↦
            let good : pass (insert content_encoding value headers) ≡ pass after =
              rw (read, with_encoding) at passes in
            subst AllForwarded (pass_inj (insert content_encoding value headers) after good)
              (insert-AllForwarded content_encoding value headers refl h)
      ]

  -- the body that was read, and what becomes of it
  pub record IsForwarded (request : Inbound Value) (upstream : Upstream Value) : Type 0 where
    pub body : Bytes
    pub read : request.body ≡ some body
    pub faithful : IsFaithful body upstream.prepared
    pub forwarded : AllForwarded upstream.headers

  forward-IsForwarded :
      (cells : Cells) (request : Inbound Value) (local_path : Str) (route : NativeRoute)
      (upstream : Upstream Value)
      → forward json codecs sha256_hex to_str from_str identity cells request (local_path, route)
        ≡ pass upstream
      → IsForwarded request upstream × (upstream.method ≡ route.method)
  unfolding forward
  forward-IsForwarded cells request local_path route upstream passes =
      let (path, _, h1) = require-pass (upstream_path local_path) 404 _ passes in
      let (encoding, _, h2) =
        first-pass
          (encoding_text json codecs sha256_hex to_str from_str identity
            (get content_encoding request.headers))
          _ h1 in
      let (body, read, h3) = require-pass request.body 413 _ h2 in
      let (headers, encoded, h4) =
        first-pass
          (with_encoding json codecs sha256_hex to_str from_str identity encoding
            (native_upstream_headers identity request.headers))
          _ h3 in
      let prepared =
        prepare_responses_body json codecs sha256_hex body encoding local_path cells.aging_policy in
      let same = pass_inj _ upstream h4 in
      let allowed =
        with_encoding-AllForwarded encoding (native_upstream_headers identity request.headers)
          headers encoded (native_upstream_headers-AllForwarded identity request.headers) in
      (
        record {
          body = body;
          read = read;
          faithful =
              subst (λ u. IsFaithful body u.prepared) same
                (prepare-IsFaithful json codecs sha256_hex body encoding local_path
                  cells.aging_policy);
          forwarded = subst (λ u. AllForwarded u.headers) same allowed;
        },
        sym (ap (λ u. u.method) same),
      )

  -- A request that is sent upstream came without an origin, under the capability, on a route of the
  -- list and with that route's method, and announced no body over the limit; the server was not
  -- draining at either test and had room for it. Its headers are all of the list, and its body is
  -- rewritten under the outcome `aged` or is the body that was read, byte for byte.
  pub handle-passes :
      (capability : CallerCapability) (cells : Cells) (request : Inbound Value)
      (upstream : Upstream Value)
      → handle json codecs sha256_hex to_str from_str identity capability cells request
        ≡ pass upstream
      → (local_path : Str) × (route : NativeRoute) × IsAccepted capability request local_path route
        × (cells.draining ≡ false)
        × (cells.draining_again ≡ false)
        × (cells.active_requests < max_concurrent_requests)
        × IsForwarded request upstream
        × (upstream.method ≡ route.method)
  unfolding handle
  handle-passes capability cells request upstream passes =
      let ((local_path, route), accepted, h1) =
        first-pass (accept json codecs sha256_hex to_str from_str identity capability request) _
          passes in
      let (active, admitted, h2) =
        first-pass (admit json codecs sha256_hex to_str from_str identity cells) _ h1 in
      let (open_first, open_again, room) = admit-pass cells active admitted in
      let (forwarded, method) = forward-IsForwarded cells request local_path route upstream h2 in
      (
        local_path,
        route,
        accept-IsAccepted capability request local_path route accepted,
        open_first,
        open_again,
        room,
        forwarded,
        method,
      )
