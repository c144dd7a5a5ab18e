-- ===== src/Routes/Validate/Security.antt =====
-- backend/internal/routes/store.go: validateRouteSecurity and what it calls.
use caddy_reverse_proxy.Common.{
  Bool, true, not, ◌&&◌, ◌||◌, List, [], ◌∷◌, Result, ok, ◌>>◌, fail_if,
}
use caddy_reverse_proxy.Common.Int.{lt_ℤ}
use caddy_reverse_proxy.Text.{
  Text, codes, ◌==◌, is_upper, is_digit, has_prefix, contains, trim_space, to_upper,
}
use caddy_reverse_proxy.Model.{RouteSecurityConfig}
use caddy_reverse_proxy.Routes.Errors.{
  Error, negative_body_limit, invalid_method, invalid_denied_prefix, invalid_range,
}
use caddy_reverse_proxy.Routes.Std.{Std}

abbrev token_symbols : Text
token_symbols = codes "!#$%&'*+-.^_`|~"

token_characters : Text → Bool
token_characters [] = true
token_characters (c ∷ s) =
    (is_upper c || is_digit c || contains c token_symbols) && token_characters s

unfoldable pub valid_http_token : Text → Bool
unfolding token_characters
valid_http_token value = not (value == []) && token_characters value

unfoldable pub validate_methods : List Text → Result Error (Unit {0})
unfolding valid_http_token
validate_methods [] = ok tt
validate_methods (method ∷ methods) = do
  fail_if (not (valid_http_token (to_upper (trim_space method)))) (invalid_method method)
  validate_methods methods

unfoldable pub validate_prefixes : List Text → Result Error (Unit {0})
validate_prefixes [] = ok tt
validate_prefixes (raw ∷ prefixes) = do
  let prefix = trim_space raw
  fail_if (not (has_prefix prefix (codes "/")) || contains b'*' prefix)
      (invalid_denied_prefix prefix)
  validate_prefixes prefixes

module _ (std : Std) where
  unfoldable pub validate_ip_ranges : List Text → Result Error (Unit {0})
  validate_ip_ranges [] = ok tt
  validate_ip_ranges (raw ∷ ranges) = do
    let source = trim_space raw
    fail_if (not (std.parse_ip source) && not (std.parse_cidr source)) (invalid_range source)
    validate_ip_ranges ranges

  unfoldable pub validate_route_security : RouteSecurityConfig → Result Error (Unit {0})
  unfolding validate_methods validate_prefixes validate_ip_ranges
  validate_route_security security = do
    fail_if (lt_ℤ security.max_request_body_bytes 0) negative_body_limit
    validate_methods security.additional_denied_methods
    validate_prefixes security.additional_denied_path_prefixes
    validate_ip_ranges security.allowed_cidrs
    validate_ip_ranges security.blocked_cidrs
