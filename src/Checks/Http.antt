-- ===== src/Checks/Http.antt =====
-- Requests under the origin policy and the rate limiter.
use joplin_mcp_rust.Prelude.{
  ℕ, ◌≤◌, ◌≡◌, refl, List, [], ◌∷◌, Option, none, some, ok, chars, inl, arith, true,
}
use joplin_mcp_rust.Prelude.{All}
use joplin_mcp_rust.Http.Html.{IsInert, html_escape, html_escape-IsInert}
use joplin_mcp_rust.Http.Headers.{Headers}
use joplin_mcp_rust.Http.Origin.{
  Url, login_post, api, validate_origin_policy, validate_server_policy,
}
use joplin_mcp_rust.Http.Origin.Laws.{IsConfigured, accepted-IsConfigured, configured-accepted}
use joplin_mcp_rust.Http.RateLimit.{BootstrapRateLimitState, allow_windowed_request}
use joplin_mcp_rust.Http.RateLimit.Laws.{IsBounded, allow_windowed_request-IsBounded}
use joplin_mcp_rust.Http.RateLimit.Windows.{admitted, admitted_le}

abbrev empty_state : BootstrapRateLimitState
empty_state = record { per_email = []; next_email_prune_at = none }

abbrev demo_requests : List (List ℕ × ℕ)
demo_requests = (1 ∷ [], 5) ∷ (2 ∷ [], 6) ∷ (1 ∷ [], 7) ∷ (1 ∷ [], 8) ∷ []

admitted_le_example : admitted (1 ∷ []) 100 2 10 demo_requests empty_state ≤ 2
admitted_le_example = admitted_le (1 ∷ []) 0 100 2 10 demo_requests empty_state tt (
  (omega arith, omega arith),
  ((omega arith, omega arith), ((omega arith, omega arith), ((omega arith, omega arith), tt))),
)

allow_windowed_request-IsBounded_example :
    IsBounded 1 ((allow_windowed_request empty_state (1 ∷ []) 5 100 2 1).1).per_email
allow_windowed_request-IsBounded_example =
    allow_windowed_request-IsBounded empty_state (1 ∷ []) 5 100 2 1 (tt, omega arith)

-- A parser that takes every text for the host of an https origin.
abbrev demo_parse : List ℕ → Option Url
demo_parse text = some (record {
  scheme = chars "https";
  host_str = some text;
  port = some 8443;
  path = chars "/";
  query = none;
  fragment = none;
})

abbrev demo_headers : Headers
demo_headers = record {
  origin = some (some (chars "a.example"));
  referer = none;
  authorization = none;
  accept = none;
  content_type = none;
  mcp_protocol_version = none;
}

abbrev demo_origins : List (List ℕ)
demo_origins = chars "a.example" ∷ []

accepted-IsConfigured_example :
    (sent : List ℕ) × (some (chars "a.example") ≡ some sent)
    × IsConfigured demo_parse demo_origins sent
unfolding validate_origin_policy joplin_mcp_rust.Prelude.same
accepted-IsConfigured_example =
    accepted-IsConfigured demo_parse login_post demo_headers demo_origins (some (chars "a.example"))
      refl refl

configured-accepted_example :
    validate_origin_policy demo_parse api demo_headers demo_origins ≡ ok tt
unfolding validate_server_policy joplin_mcp_rust.Prelude.same
configured-accepted_example =
    configured-accepted demo_parse api demo_headers demo_origins (chars "a.example") refl (inl refl)
      refl refl

html_escape-IsInert_example : All IsInert (html_escape (chars "<a href='x'>"))
html_escape-IsInert_example = html_escape-IsInert (chars "<a href='x'>")
