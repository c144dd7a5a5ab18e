-- ===== src/Caddy/Entries.antt =====
-- backend/internal/caddy/config.go: renderRoute and renderSecurityEntries, the generated routes of
-- one route.
pub mod Combined
pub mod Forwarding
pub mod Laws
pub mod Requests
pub mod Denying
pub mod Rejecting
pub mod Valid
pub mod Stored
mod Tests
use caddy_reverse_proxy.Common.{
  ℕ, Bool, true, false, not, ◌&&◌, ◌||◌, Option, none, some, List, [], ◌∷◌, ◌++◌, map, Result, ok,
  err, ◌>>=◌, ◌>>◌, fail_if, if◌then◌else◌, is_empty,
}
use caddy_reverse_proxy.Common.Int.{ℤ, pos, eq_ℤ, lt_ℤ}
use caddy_reverse_proxy.Text.{Text, codes, ◌==◌, to_lower}
use caddy_reverse_proxy.Model.{UpstreamTarget, RouteConfig}
use caddy_reverse_proxy.Model.Config.{AuthConfig, SecurityConfig}
use caddy_reverse_proxy.Routes.Std.{Url, Std}
use caddy_reverse_proxy.Caddy.{
  Matcher, ReverseProxy, static_response, Entry, Error, internal_without_ranges, mixed_schemes,
  negative_body_limit, bad_upstream,
}
use caddy_reverse_proxy.Caddy.Matchers.{append_unique, route_match, restricted_path_matchers}
use caddy_reverse_proxy.Caddy.Policies.{
  HeaderPolicy, protected_header_policies, unique_header_names,
}
use caddy_reverse_proxy.Caddy.Handlers.{reverse_proxy_handler, route_log_handlers, proxy_handlers}

unfoldable pub security_rejection : RouteConfig → Matcher → ℕ → Entry
security_rejection route matcher status = record {
  matcher = matcher;
  handle =
      route_log_handlers route
        (static_response status (codes "request blocked by gateway security policy\n") ∷ []);
}

-- `if len(values) > 0 { append the rejection }`
unfoldable pub reject_any : RouteConfig → List Text → (List Text → Matcher) → ℕ → List Entry
unfolding security_rejection
reject_any route [] matcher status = []
reject_any route (value ∷ values) matcher status =
    security_rejection route (matcher (value ∷ values)) status ∷ []

unfoldable pub security_entries : RouteConfig → SecurityConfig → List Entry
unfolding reject_any
security_entries route security =
    let base = route_match route in
    let blocked_cidrs = append_unique security.blocked_cidrs route.security.blocked_cidrs in
    let denied_methods =
      append_unique security.denied_methods route.security.additional_denied_methods in
    let denied_paths =
      append_unique security.denied_path_prefixes route.security.additional_denied_path_prefixes in
    let outside = λ (ranges : List Text). record base { not_remote_ip = some ranges } in
    reject_any route blocked_cidrs (λ ranges. record base { remote_ip = some ranges }) 403
    ++ (reject_any route security.allowed_cidrs outside 403
        ++ (reject_any route route.security.allowed_cidrs outside 403
            ++ (reject_any route denied_methods (λ methods. record base { method = some methods })
                  405
                ++ reject_any route (restricted_path_matchers route.path_prefix denied_paths)
                    (λ paths. record base { path = some paths }) 403)))

abbrev pub body_limit : RouteConfig → SecurityConfig → ℤ
body_limit route security =
    if eq_ℤ route.security.max_request_body_bytes (pos 0)
    then security.max_request_body_bytes
    else route.security.max_request_body_bytes

-- The rejections, and the limit of the request body.
unfoldable pub render_security_entries :
    RouteConfig → SecurityConfig → Result Error (List Entry × ℤ)
unfolding security_entries
render_security_entries route security =
    if not security.enabled || route.security.disabled
    then ok ([], pos 0)
    else if lt_ℤ (body_limit route security) 0
    then err (negative_body_limit route.id)
    else ok (security_entries route security, body_limit route security)

abbrev pub dial_url : RouteConfig → Text → Option Url → Result Error (Text × Bool)
dial_url route raw none = err (bad_upstream route.id raw)
dial_url route raw (some url) =
    if url.host == []
    then err (bad_upstream route.id raw)
    else if to_lower url.scheme == codes "http"
    then ok (url.host, false)
    else if to_lower url.scheme == codes "https"
    then ok (url.host, true)
    else err (bad_upstream route.id raw)

-- `useTLS`, once `transportSet`.
abbrev pub differs : Option Bool → Bool → Bool
differs none tls = false
differs (some true) tls = not tls
differs (some false) tls = tls

abbrev or_false : Option Bool → Bool
or_false none = false
or_false (some tls) = tls

module _ (std : Std) where
  -- upstreamDial, its error wrapped
  unfoldable pub upstream_dial : RouteConfig → Text → Result Error (Text × Bool)
  upstream_dial route raw = dial_url route raw (std.parse_url raw)

  -- The loop over the upstreams: what they dial, and whether by TLS.
  unfoldable pub render_upstreams :
      RouteConfig → Option Bool → List UpstreamTarget → Result Error (List Text × Bool)
  unfolding upstream_dial
  render_upstreams route transport [] = ok ([], or_false transport)
  render_upstreams route transport (upstream ∷ upstreams) =
      upstream_dial route upstream.url >>= λ dialled.
      fail_if (differs transport dialled.1) (mixed_schemes route.id)
      >> (render_upstreams route (some dialled.1) upstreams >>= λ rest.
          ok (dialled.0 ∷ rest.0, rest.1))

-- `match`, with the source ranges of an internal route.
unfoldable pub guarded_match : RouteConfig → List Text → Result Error Matcher
guarded_match route internal_source_ranges =
    if route.exposure == codes "internal"
    then fail_if (is_empty internal_source_ranges) (internal_without_ranges route.id)
      >> ok (record (route_match route) { remote_ip = some internal_source_ranges })
    else ok (route_match route)

unfoldable pub fallback_entry : RouteConfig → Matcher → Bool → Entry
fallback_entry route matcher unconfigured = record {
  matcher = matcher;
  handle = route_log_handlers route (
      (if unconfigured
        then static_response 503 (codes "protected route policy is not configured\n")
        else static_response 401 (codes "protected route requires gateway token\n"))
      ∷ []);
}

unfoldable pub proxy_entry : RouteConfig → Matcher → ℤ → ReverseProxy → Entry
proxy_entry route matcher limit proxy = record {
  matcher = matcher;
  handle = proxy_handlers route limit proxy;
}

abbrev pub with_header : Matcher → HeaderPolicy → Matcher
with_header matcher policy = record matcher { header = some (policy.name, policy.value) }

-- An entry for each header that opens the route, and the fallback; `proxy` takes the headers to strip.
unfoldable pub protected_entries :
    RouteConfig → AuthConfig → Matcher → ℤ → (List Text → ReverseProxy) → List Entry
unfolding fallback_entry proxy_entry
protected_entries route auth matcher limit proxy =
    let policies = protected_header_policies auth in
    map
      (λ policy.
        proxy_entry route (with_header matcher policy) limit (proxy (unique_header_names policies)))
      policies
    ++ fallback_entry route matcher (is_empty policies) ∷ []

-- What follows the rejections.
unfoldable pub access_entries :
    RouteConfig → AuthConfig → Matcher → ℤ → (List Text → ReverseProxy) → List Entry
unfolding protected_entries proxy_entry
access_entries route auth matcher limit proxy =
    if route.is_protected
    then protected_entries route auth matcher limit proxy
    else proxy_entry route matcher limit (proxy []) ∷ []

module _ (std : Std) where
  unfoldable pub render_route :
      RouteConfig → AuthConfig → SecurityConfig → List Text → Result Error (List Entry)
  unfolding guarded_match render_upstreams render_security_entries access_entries
  render_route route auth security internal_source_ranges =
      guarded_match route internal_source_ranges >>= λ matcher.
      render_upstreams std route none route.upstreams >>= λ upstreams.
      render_security_entries route security >>= λ checked. ok (
        checked.0
        ++ access_entries route auth matcher checked.1
            λ strip. reverse_proxy_handler upstreams.0 upstreams.1 strip route.headers)
