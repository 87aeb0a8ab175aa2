-- ===== src/Http/Origin/Laws.antt =====
-- Which origins the policy lets through.
use joplin_mcp_rust.Prelude.{
  both, or_true, ℕ, ◌≡◌, refl, subst, ap, ◌∙◌, Bool, true, false, not, List, [], ◌∷◌, Option, none,
  some, ok, if◌then◌else◌, is_empty, is_some, all, Any, same, Bool-cases, Option-cases, inl, inr,
  arith, same_refl, same-eq, >>=-eq-ok,
}
use joplin_mcp_rust.Http.Headers.{Headers}
use joplin_mcp_rust.Http.Origin.{
  EndpointClass, mcp, api, login_get, login_post, OriginPolicyError, Url, is_http, is_bare,
  header_origin, origin_from_url, allow_if, normalize_origin_header_value, allowed_origin_header,
  is_allowed, validate_server_policy, validate_origin_policy, disallowed_origin,
  validate_json_endpoint, validate_optional_origin, validate_login_post,
}

allowed_of : (b : Bool) (e : OriginPolicyError) → allow_if b e ≡ ok tt → b ≡ true
allowed_of true e h = refl
allowed_of false e h = absurd cc

two_guards :
    (a b : Bool) (o : Option (List ℕ)) (origin : List ℕ)
    → (if not a then none else if not b then none else o) ≡ some origin
    → (a ≡ true) × (b ≡ true) × (o ≡ some origin)
two_guards a b o origin h = ground arith

header_origin-some :
    (url : Url) (origin : List ℕ)
    → header_origin url ≡ some origin
    → (is_http url ≡ true) × (is_bare url ≡ true) × (origin_from_url url ≡ some origin)
header_origin-some url origin h = two_guards (is_http url) (is_bare url) _ _ h

module _ (parse : List ℕ → Option Url) where
  is_allowed-Any :
      (allowed_origins : List (List ℕ)) (origin : List ℕ)
      → is_allowed parse allowed_origins origin ≡ true
      → Any (λ allowed. normalize_origin_header_value parse allowed ≡ some origin) allowed_origins
  is_allowed-Any [] origin h = absurd cc
  is_allowed-Any (allowed ∷ rest) origin h =
      elim (Option-cases (normalize_origin_header_value parse allowed)) [
        | inl absent ↦ inr (is_allowed-Any rest origin (rw absent at h))
        | inr (found, there) ↦ elim (Bool-cases (same found origin)) [
          | inl holds ↦ inl (there ∙ ap (λ o. some o) (same-eq found origin holds))
          | inr fails ↦ inr (is_allowed-Any rest origin (rw (there, fails) at h))
        ]
      ]

  -- The request names an http or https origin with no path, query or fragment, which is that of an
  -- entry of the configuration.
  abbrev pub IsConfigured : List (List ℕ) → List ℕ → Type 0
  IsConfigured allowed_origins sent =
      (url : Url) × (origin : List ℕ) × (parse sent ≡ some url)
      × (is_http url ≡ true)
      × (is_bare url ≡ true)
      × (origin_from_url url ≡ some origin)
      × Any (λ allowed. normalize_origin_header_value parse allowed ≡ some origin) allowed_origins

  allowed_origin-IsConfigured :
      (value : Option (List ℕ)) (allowed_origins : List (List ℕ))
      → allowed_origin_header parse value allowed_origins ≡ true
      → (sent : List ℕ) × (value ≡ some sent) × IsConfigured allowed_origins sent
  unfolding allowed_origin_header normalize_origin_header_value
  allowed_origin-IsConfigured none allowed_origins h = absurd cc
  allowed_origin-IsConfigured (some sent) allowed_origins h = elim (Option-cases (parse sent)) [
    | inl absent ↦
        let bad : false ≡ true =
          rw (allowed_origin_header, normalize_origin_header_value, absent) at h in
        absurd cc
    | inr (url, parsed) ↦ elim (Option-cases (header_origin url)) [
      | inl absent ↦
          let bad : false ≡ true =
            rw (allowed_origin_header, normalize_origin_header_value, parsed, absent) at h in
          absurd cc
      | inr (origin, there) ↦
          let (http, bare, origin_is) = header_origin-some url origin there in
          (
            sent,
            refl,
            (
              url,
              origin,
              parsed,
              http,
              bare,
              origin_is,
              is_allowed-Any allowed_origins origin
                  (rw (allowed_origin_header, normalize_origin_header_value, parsed, there) at h),
            ),
          )
    ]
  ]

  checked_origin :
      (class : EndpointClass) (headers : Headers) (allowed_origins : List (List ℕ))
      (value : Option (List ℕ))
      → headers.origin ≡ some value
      → validate_origin_policy parse class headers allowed_origins ≡ ok tt
      → allowed_origin_header parse value allowed_origins ≡ true
  unfolding validate_origin_policy validate_json_endpoint validate_optional_origin
      validate_login_post
  checked_origin mcp headers allowed_origins value there h =
      allowed_of _ _ (rw (validate_origin_policy, validate_json_endpoint, there) at h)
  checked_origin api headers allowed_origins value there h =
      allowed_of _ _ (rw (validate_origin_policy, validate_json_endpoint, there) at h)
  checked_origin login_get headers allowed_origins value there h =
      allowed_of _ _ (rw (validate_origin_policy, validate_optional_origin, there) at h)
  checked_origin login_post headers allowed_origins value there h =
      let (done, first, rest) =
        >>=-eq-ok (allow_if (allowed_origin_header parse value allowed_origins) disallowed_origin) _
          (rw (validate_origin_policy, validate_login_post, there) at h) in
      allowed_of _ disallowed_origin (first)

  -- A request that the policy accepts and that carries an Origin header, to whatever endpoint, carries
  -- the text of an http or https origin, with no path, query or fragment, and it is the origin of an
  -- entry of `server.allowed_origins`.
  pub accepted-IsConfigured :
      (class : EndpointClass) (headers : Headers) (allowed_origins : List (List ℕ))
      (value : Option (List ℕ))
      → headers.origin ≡ some value
      → validate_origin_policy parse class headers allowed_origins ≡ ok tt
      → (sent : List ℕ) × (value ≡ some sent) × IsConfigured allowed_origins sent
  accepted-IsConfigured class headers allowed_origins value there h =
      allowed_origin-IsConfigured value allowed_origins
        (checked_origin class headers allowed_origins value there h)

  all-Any :
      (p : List ℕ → Bool) (sent : List ℕ) (xs : List (List ℕ))
      → all p xs ≡ true
      → Any (λ x. x ≡ sent) xs
      → p sent ≡ true
  all-Any p sent [] h found = absurd found
  all-Any p sent (x ∷ xs) h (inl here) = subst (λ y. p y ≡ true) here ((both (p x) _ h).0)
  all-Any p sent (x ∷ xs) h (inr later) = all-Any p sent xs ((both (p x) _ h).1) later

  Any-is_allowed :
      (sent origin : List ℕ) (xs : List (List ℕ))
      → normalize_origin_header_value parse sent ≡ some origin
      → Any (λ x. x ≡ sent) xs
      → is_allowed parse xs origin ≡ true
  Any-is_allowed sent origin [] h found = absurd found
  Any-is_allowed sent origin (x ∷ xs) h (inl here) = rw (here, h, same_refl origin) refl
  Any-is_allowed sent origin (x ∷ xs) h (inr later) =
      or_true _ _ (Any-is_allowed sent origin xs h later)

  configured_is_allowed :
      (sent : List ℕ) (allowed_origins : List (List ℕ))
      → validate_server_policy parse allowed_origins ≡ true
      → Any (λ allowed. allowed ≡ sent) allowed_origins
      → allowed_origin_header parse (some sent) allowed_origins ≡ true
  unfolding validate_server_policy allowed_origin_header
  configured_is_allowed sent allowed_origins valid listed =
      let known =
        all-Any (λ origin. is_some (normalize_origin_header_value parse origin)) sent
          allowed_origins ((both (not (is_empty allowed_origins)) _ valid).1) listed in
      elim (Option-cases (normalize_origin_header_value parse sent)) [
        | inl absent ↦ let bad : false ≡ true = rw absent at known in absurd cc
        | inr (origin, there) ↦
            rw (allowed_origin_header, there)
              (Any-is_allowed sent origin allowed_origins there listed)
      ]

  -- A browser request from an origin that the configuration lists, as it is written there, passes the
  -- policy of every endpoint, if the configuration is valid and the request has no Referer.
  pub configured-accepted :
      (class : EndpointClass) (headers : Headers) (allowed_origins : List (List ℕ)) (sent : List ℕ)
      → validate_server_policy parse allowed_origins ≡ true
      → Any (λ allowed. allowed ≡ sent) allowed_origins
      → headers.origin ≡ some (some sent)
      → headers.referer ≡ none
      → validate_origin_policy parse class headers allowed_origins ≡ ok tt
  unfolding validate_origin_policy validate_json_endpoint validate_optional_origin
      validate_login_post
  configured-accepted mcp headers allowed_origins sent valid listed there no_referer =
      rw
        (
          validate_origin_policy,
          validate_json_endpoint,
          there,
          configured_is_allowed sent allowed_origins valid listed,
        )
        refl
  configured-accepted api headers allowed_origins sent valid listed there no_referer =
      rw
        (
          validate_origin_policy,
          validate_json_endpoint,
          there,
          configured_is_allowed sent allowed_origins valid listed,
        )
        refl
  configured-accepted login_get headers allowed_origins sent valid listed there no_referer =
      rw
        (
          validate_origin_policy,
          validate_optional_origin,
          there,
          configured_is_allowed sent allowed_origins valid listed,
        )
        refl
  configured-accepted login_post headers allowed_origins sent valid listed there no_referer =
      rw
        (
          validate_origin_policy,
          validate_login_post,
          there,
          no_referer,
          configured_is_allowed sent allowed_origins valid listed,
        )
        refl
