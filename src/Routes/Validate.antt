-- ===== src/Routes/Validate.antt =====
-- backend/internal/routes/store.go: hosts, HTTP tokens, IP ranges, route security and routes.
pub mod Security
use caddy_reverse_proxy.Common.{
  ℕ, ◌+◌, Bool, true, false, not, ◌&&◌, ◌||◌, Option, none, some, List, [], ◌∷◌, Result, ok, err,
  ◌>>◌, fail_if, ltb, if◌then◌else◌, is_empty, length, eqb,
}
use caddy_reverse_proxy.Text.{
  Text, codes, ◌==◌, is_lower, is_digit, has_prefix, drop, contains, contains_any, split, last_or,
  trim_space, trim_suffix_dot, to_lower,
}
use caddy_reverse_proxy.Model.{UpstreamTarget, RouteConfig}
use caddy_reverse_proxy.Routes.Errors.{
  Error, host_required, upstream_required, path_without_slash, path_wildcard, upstream_incomplete,
  upstream_scheme, host_not_dns, host_not_qualified, host_invalid,
}
use caddy_reverse_proxy.Routes.Std.{Std, Url}
use Security.{validate_route_security}

-- The loop over the characters of one label.
unfoldable pub label_characters : Text → Bool
label_characters [] = true
label_characters (c ∷ s) = (is_lower c || is_digit c || eqb c b'-') && label_characters s

unfoldable pub valid_label : Text → Bool
unfolding label_characters
valid_label [] = false
valid_label (c ∷ s) =
    not (ltb 63 (length (c ∷ s)) || eqb c b'-' || eqb (last_or c s) b'-')
    && label_characters (c ∷ s)

unfoldable pub validate_labels : Text → List Text → Result Error (Unit {0})
unfolding valid_label
validate_labels host [] = ok tt
validate_labels host (label ∷ labels) = do
  fail_if (not (valid_label label)) (host_invalid host)
  validate_labels host labels

-- strings.TrimPrefix(host, "*.")
abbrev pub wildcard_base : Text → Text
wildcard_base host = if has_prefix host (codes "*.") then drop 2 host else host

unfoldable pub validate_route_host : Text → Result Error (Unit {0})
unfolding validate_labels
validate_route_host host = do
  let name = wildcard_base host
  fail_if (contains b'*' name || contains_any (codes "/:") name || ltb 253 (length name))
      (host_not_dns host)
  fail_if (ltb (length (split b'.' name)) 2) (host_not_qualified host)
  validate_labels host (split b'.' name)

module _ (std : Std) where
  abbrev pub validate_upstream_url : Text → Option Url → Result Error (Unit {0})
  validate_upstream_url url none = err (upstream_incomplete url)
  validate_upstream_url url (some parsed) = do
    fail_if (parsed.host == [] || parsed.scheme == []) (upstream_incomplete url)
    fail_if
        (not (to_lower parsed.scheme == codes "http" || to_lower parsed.scheme == codes "https"))
        (upstream_scheme url)

  unfoldable pub validate_upstreams : List UpstreamTarget → Result Error (Unit {0})
  validate_upstreams [] = ok tt
  validate_upstreams (upstream ∷ upstreams) = do
    validate_upstream_url upstream.url (std.parse_url (trim_space upstream.url))
    validate_upstreams upstreams

  unfoldable pub validate : RouteConfig → Result Error (Unit {0})
  unfolding validate_upstreams
  validate route = do
    let host = trim_suffix_dot (to_lower (trim_space route.host))
    let path_prefix = trim_space route.path_prefix
    fail_if (host == []) host_required
    validate_route_host host
    fail_if (is_empty route.upstreams) upstream_required
    fail_if (not (path_prefix == []) && not (has_prefix path_prefix (codes "/"))) path_without_slash
    fail_if (not (path_prefix == []) && contains b'*' path_prefix) path_wildcard
    validate_upstreams route.upstreams
    validate_route_security std route.security
