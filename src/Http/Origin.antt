-- ===== src/Http/Origin.antt =====
-- The origin policy of crates/joplin-mcpd/src/security.rs. `Url::parse` is third-party code, the
-- parameter `parse`; a method or a path is a text.
pub mod Laws
use joplin_mcp_rust.Prelude.{
  ℕ, suc, zero, ◌+◌, ◌/◌, ◌%◌, Bool, true, false, not, ◌&&◌, ◌||◌, List, [], ◌∷◌, ◌++◌, Option,
  none, some, Result, ok, err, ltb, if◌then◌else◌, is_empty, is_none, is_some, is_some_and, any,
  all, chars, same, strip_prefix, and_then, ◌>>◌, ◌>>=◌, map_option,
}
use joplin_mcp_rust.Http.Headers.{
  Header, Headers, text, has_bearer_authorization, has_json_content_type,
}

pub data EndpointClass : Type 0 where
  mcp api login_get login_post : EndpointClass

pub data OriginPolicyError : Type 0 where
  disallowed_origin disallowed_referer missing_non_browser_json_signal : OriginPolicyError

-- `OriginPolicyError::status`: FORBIDDEN
abbrev pub status : OriginPolicyError → ℕ
status disallowed_origin = 403
status disallowed_referer = 403
status missing_non_browser_json_signal = 403

unfoldable pub endpoint_class : List ℕ → List ℕ → Option EndpointClass
endpoint_class method path =
    if same path (chars "/mcp")
    then some mcp
    else if is_some (strip_prefix (chars "/api/") path)
    then some api
    else if same method (chars "GET") && same path (chars "/login")
    then some login_get
    else if same method (chars "POST") && same path (chars "/login")
    then some login_post
    else none

-- The parts of a parsed URL that the policy reads; `port` is none for the scheme's own port.
pub record Url : Type 0 where
  pub scheme : List ℕ
  pub host_str : Option (List ℕ)
  pub port : Option ℕ
  pub path : List ℕ
  pub query : Option (List ℕ)
  pub fragment : Option (List ℕ)

-- The decimal digits of a number; a port has at most five.
abbrev pub decimal : ℕ → ℕ → List ℕ
decimal zero n = []
decimal (suc fuel) n =
    let rest = decimal fuel (n / 10) in
    if ltb n 10 then (b'0' + n) ∷ [] else rest ++ ((b'0' + n % 10) ∷ [])

abbrev pub port_suffix : Option ℕ → List ℕ
port_suffix none = []
port_suffix (some port) = b':' ∷ decimal 5 port

unfoldable pub origin_from_url : Url → Option (List ℕ)
origin_from_url url =
    map_option (λ host. url.scheme ++ (chars "://" ++ (host ++ port_suffix url.port))) url.host_str

abbrev pub is_http : Url → Bool
is_http url = same url.scheme (chars "http") || same url.scheme (chars "https")

abbrev pub is_bare : Url → Bool
is_bare url = same url.path (chars "/") && is_none url.query && is_none url.fragment

abbrev pub header_origin : Url → Option (List ℕ)
header_origin url =
    if not (is_http url) then none else if not (is_bare url) then none else origin_from_url url

abbrev pub allow_if : Bool → OriginPolicyError → Result OriginPolicyError Unit
allow_if true error = ok tt
allow_if false error = err error

module _ (parse : List ℕ → Option Url) where
  unfoldable pub normalize_origin_header_value : List ℕ → Option (List ℕ)
  unfolding origin_from_url
  normalize_origin_header_value value = and_then (parse value) header_origin

  unfoldable pub origin_from_url_value : List ℕ → Option (List ℕ)
  unfolding origin_from_url
  origin_from_url_value value = and_then (parse value) origin_from_url

  -- `filter_map(normalize_origin_header_value).any(|allowed| allowed == origin)`
  abbrev pub is_allowed : List (List ℕ) → List ℕ → Bool
  is_allowed allowed_origins origin =
      any (λ allowed. is_some_and (normalize_origin_header_value allowed) (λ o. same o origin))
        allowed_origins

  unfoldable pub allowed_origin_header : Option (List ℕ) → List (List ℕ) → Bool
  unfolding normalize_origin_header_value
  allowed_origin_header origin allowed_origins =
      is_some_and (and_then origin normalize_origin_header_value) (is_allowed allowed_origins)

  unfoldable pub allowed_referer_header : Option (List ℕ) → List (List ℕ) → Bool
  unfolding normalize_origin_header_value origin_from_url_value
  allowed_referer_header referer allowed_origins =
      is_some_and (and_then referer origin_from_url_value) (is_allowed allowed_origins)

  -- `validate_server_policy`; the messages of its two failures are left out.
  unfoldable pub validate_server_policy : List (List ℕ) → Bool
  unfolding normalize_origin_header_value
  validate_server_policy allowed_origins =
      not (is_empty allowed_origins)
      && all (λ origin. is_some (normalize_origin_header_value origin)) allowed_origins

  unfoldable pub validate_json_endpoint : Headers → List (List ℕ) → Result OriginPolicyError Unit
  unfolding allowed_origin_header has_bearer_authorization has_json_content_type
  validate_json_endpoint headers allowed_origins = elim headers.origin [
    | some origin ↦ allow_if (allowed_origin_header origin allowed_origins) disallowed_origin
    | none ↦
        allow_if (has_bearer_authorization headers && has_json_content_type headers)
          missing_non_browser_json_signal
  ]

  unfoldable pub validate_optional_origin : Headers → List (List ℕ) → Result OriginPolicyError Unit
  unfolding allowed_origin_header
  validate_optional_origin headers allowed_origins = elim headers.origin [
    | none ↦ ok tt
    | some origin ↦ allow_if (allowed_origin_header origin allowed_origins) disallowed_origin
  ]

  abbrev pub check_header :
      Header → (Option (List ℕ) → Bool) → OriginPolicyError → Result OriginPolicyError Unit
  check_header none allowed error = ok tt
  check_header (some value) allowed error = allow_if (allowed value) error

  unfoldable pub validate_login_post : Headers → List (List ℕ) → Result OriginPolicyError Unit
  unfolding allowed_origin_header allowed_referer_header
  validate_login_post headers allowed_origins = do
    check_header headers.origin (λ o. allowed_origin_header o allowed_origins) disallowed_origin
    check_header headers.referer (λ r. allowed_referer_header r allowed_origins) disallowed_referer
    allow_if (not (is_none headers.origin && is_none headers.referer)) disallowed_origin

  unfoldable pub validate_origin_policy :
      EndpointClass → Headers → List (List ℕ) → Result OriginPolicyError Unit
  unfolding validate_json_endpoint validate_optional_origin validate_login_post
  validate_origin_policy mcp = validate_json_endpoint
  validate_origin_policy api = validate_json_endpoint
  validate_origin_policy login_get = validate_optional_origin
  validate_origin_policy login_post = validate_login_post
