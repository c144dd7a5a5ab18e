-- ===== src/Caddy/Entries/Tests.antt =====
-- A route of the small gateway that is validated and rendered.
use caddy_reverse_proxy.Common.{◌≡◌, refl, [], ◌∷◌, ok, any}
use caddy_reverse_proxy.Text.{
  codes, ◌==◌, to_lower, to_upper, lower, upper, trim, trim_left, trim_right, trim_space,
  trim_suffix_dot, has_prefix, drop, contains, contains_any, split, last_or,
}
use caddy_reverse_proxy.Routes.Validate.{
  label_characters, valid_label, validate_labels, validate_route_host, validate_upstreams, validate,
}
use caddy_reverse_proxy.Routes.Validate.Security.{
  valid_http_token, validate_methods, validate_prefixes, validate_ip_ranges,
  validate_route_security,
}
use caddy_reverse_proxy.Caddy.Entries.{render_route}
use caddy_reverse_proxy.Caddy.Entries.Valid.{RendersOrMixes, render_route-valid}
use caddy_reverse_proxy.Caddy.Samples.{one_host, shop, small_auth, small_security}

shop-valid : validate one_host shop ≡ ok tt
unfolding validate validate_route_host validate_labels valid_label label_characters
    validate_upstreams validate_route_security validate_methods valid_http_token validate_prefixes
    validate_ip_ranges ◌==◌ to_lower to_upper lower upper trim trim_left trim_right trim_space
    trim_suffix_dot has_prefix drop contains contains_any split last_or any
shop-valid = refl

render_route-valid_example :
    RendersOrMixes shop
      (render_route one_host shop small_auth small_security (codes "10.0.0.0/8" ∷ []))
unfolding trim trim_left trim_right trim_space
render_route-valid_example =
    render_route-valid one_host shop small_auth small_security (codes "10.0.0.0/8" ∷ []) shop-valid
      (refl, tt) refl refl
