-- ===== src/Transport/Headers.antt =====
-- src/modules/transport/headers.rs: the headers that are passed on. A map of headers is the list of
-- its entries, with names in lower case as the crate http keeps them; the type of values and their
-- conversions are parameters.
use tokensaver.Prelude.{
  ◌≡◌, refl, inl, inr, Bool, true, Option, none, some, List, [], ◌∷◌, ◌++◌, if◌then◌else◌,
  Bool-cases, Option-cases, All, All-append, any, Str, codes, str_eq, is_some,
}

-- `HeaderMap`
abbrev pub Headers : Type 0 → Type 0
Headers Value = List (Str × Value)

abbrev pub accept_encoding : Str
accept_encoding = codes "accept-encoding"

abbrev pub content_type : Str
content_type = codes "content-type"

abbrev pub content_encoding : Str
content_encoding = codes "content-encoding"

abbrev pub forward_headers : List Str
forward_headers =
    codes "authorization"
    ∷ codes "chatgpt-account-id"
    ∷ codes "if-none-match"
    ∷ codes "openai-beta"
    ∷ codes "openai-organization"
    ∷ codes "openai-project"
    ∷ codes "originator"
    ∷ codes "session_id"
    ∷ codes "session-id"
    ∷ codes "thread-id"
    ∷ codes "user-agent"
    ∷ codes "version"
    ∷ codes "x-client-request-id"
    ∷ codes "x-codex-beta-features"
    ∷ codes "x-codex-installation-id"
    ∷ codes "x-codex-parent-thread-id"
    ∷ codes "x-codex-turn-metadata"
    ∷ codes "x-codex-turn-state"
    ∷ codes "x-codex-window-id"
    ∷ codes "x-oai-attestation"
    ∷ codes "x-openai-fedramp"
    ∷ codes "x-openai-subagent"
    ∷ codes "x-responsesapi-include-timing-metrics"
    ∷ []

-- what may be passed on
abbrev pub is_forwarded : Str → Bool
is_forwarded name =
    any (str_eq name) (accept_encoding ∷ content_type ∷ content_encoding ∷ forward_headers)

forward_headers-forwarded : All (λ name. is_forwarded name ≡ true) forward_headers
unfolding str_eq
forward_headers-forwarded = (
  refl,
  (
    refl,
    (
      refl,
      (
        refl,
        (
          refl,
          (
            refl,
            (
              refl,
              (
                refl,
                (
                  refl,
                  (
                    refl,
                    (
                      refl,
                      (
                        refl,
                        (
                          refl,
                          (
                            refl,
                            (
                              refl,
                              (refl, (refl, (refl, (refl, (refl, (refl, (refl, (refl, tt)))))))),
                            ),
                          ),
                        ),
                      ),
                    ),
                  ),
                ),
              ),
            ),
          ),
        ),
      ),
    ),
  ),
)

module _ {Value : Type 0} where
  -- `get`, the first value, and `contains_key`
  unfoldable pub get : Str → Headers Value → Option Value
  get name [] = none
  get name ((key, value) ∷ headers) = if str_eq key name then some value else get name headers

  unfoldable pub contains_key : Str → Headers Value → Bool
  contains_key name headers = is_some (get name headers)

  -- the entries of a name: `get_all`
  unfoldable pub get_all : Str → Headers Value → Headers Value
  get_all name [] = []
  get_all name ((key, value) ∷ headers) =
      let rest = get_all name headers in if str_eq key name then (name, value) ∷ rest else rest

  -- `insert` replaces what there was under the name.
  unfoldable pub without : Str → Headers Value → Headers Value
  without name [] = []
  without name ((key, value) ∷ headers) =
      let rest = without name headers in if str_eq key name then rest else (key, value) ∷ rest

  unfoldable pub insert : Str → Value → Headers Value → Headers Value
  unfolding without
  insert name value headers = without name headers ++ (name, value) ∷ []

  unfoldable pub has_browser_origin : Headers Value → Bool
  has_browser_origin headers = contains_key (codes "origin") headers

  -- `for name in FORWARD_HEADERS { .. forwarded.append(..) }`
  forward_loop : Headers Value → List Str → Headers Value
  forward_loop headers [] = []
  forward_loop headers (name ∷ names) = get_all name headers ++ forward_loop headers names

  with_content_type : Option Value → Headers Value → Headers Value
  with_content_type none forwarded = forwarded
  with_content_type (some value) forwarded = insert content_type value forwarded

  unfoldable pub native_upstream_headers : Value → Headers Value → Headers Value
  unfolding forward_loop with_content_type
  native_upstream_headers identity headers =
      with_content_type (get content_type headers) (insert accept_encoding identity [])
      ++ forward_loop headers forward_headers

  abbrev pub AllForwarded : Headers Value → Type 0
  AllForwarded = All (λ entry. is_forwarded entry.0 ≡ true)

  get_all-AllForwarded :
      (name : Str) (headers : Headers Value)
      → is_forwarded name ≡ true
      → AllForwarded (get_all name headers)
  unfolding get_all
  get_all-AllForwarded name [] h = tt
  get_all-AllForwarded name ((key, value) ∷ headers) h = elim (Bool-cases (str_eq key name)) [
    | inl same ↦ rw same (h, get_all-AllForwarded name headers h)
    | inr apart ↦ rw apart (get_all-AllForwarded name headers h)
  ]

  without-AllForwarded :
      (name : Str) (headers : Headers Value)
      → AllForwarded headers
      → AllForwarded (without name headers)
  unfolding without
  without-AllForwarded name [] h = tt
  without-AllForwarded name ((key, value) ∷ headers) (h, later) =
      elim (Bool-cases (str_eq key name)) [
        | inl same ↦ rw same (without-AllForwarded name headers later)
        | inr apart ↦ rw apart (h, without-AllForwarded name headers later)
      ]

  pub insert-AllForwarded :
      (name : Str) (value : Value) (headers : Headers Value)
      → is_forwarded name ≡ true
      → AllForwarded headers
      → AllForwarded (insert name value headers)
  unfolding insert
  insert-AllForwarded name value headers h all_of =
      All-append (λ entry. is_forwarded entry.0 ≡ true) (without name headers) ((name, value) ∷ [])
        (without-AllForwarded name headers all_of) (h, tt)

  forward_loop-AllForwarded :
      (headers : Headers Value) (names : List Str)
      → All (λ name. is_forwarded name ≡ true) names
      → AllForwarded (forward_loop headers names)
  unfolding forward_loop
  forward_loop-AllForwarded headers [] h = tt
  forward_loop-AllForwarded headers (name ∷ names) (h, later) =
      All-append (λ entry. is_forwarded entry.0 ≡ true) (get_all name headers)
        (forward_loop headers names) (get_all-AllForwarded name headers h)
        (forward_loop-AllForwarded headers names later)

  pub native_upstream_headers-AllForwarded :
      (identity : Value) (headers : Headers Value)
      → AllForwarded (native_upstream_headers identity headers)
  unfolding native_upstream_headers with_content_type str_eq
  native_upstream_headers-AllForwarded identity headers =
      let first = insert-AllForwarded accept_encoding identity [] refl tt in
      let rest = forward_loop-AllForwarded headers forward_headers forward_headers-forwarded in
      elim (Option-cases (get content_type headers)) [
        | inl missing ↦ rw missing (
            All-append (λ entry. is_forwarded entry.0 ≡ true) (insert accept_encoding identity [])
              (forward_loop headers forward_headers) first rest)
        | inr (value, present) ↦ rw present (
            All-append (λ entry. is_forwarded entry.0 ≡ true)
              (insert content_type value (insert accept_encoding identity []))
              (forward_loop headers forward_headers)
              (insert-AllForwarded content_type value (insert accept_encoding identity []) refl
                first)
              rest)
      ]
