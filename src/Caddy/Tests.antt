-- ===== src/Caddy/Tests.antt =====
-- A small gateway, and the theorems on generated configurations at it.
mod Refusing
use caddy_reverse_proxy.Common.{
  ◌≡◌, ◌≢◌, ◌↔◌, refl, inl, inr, Bool, is_some, true, false, none, List, [], ◌∷◌, ◌++◌, Result, ok,
  err, if◌then◌else◌, All, Any, Distinct, any, find, is_empty,
}
use caddy_reverse_proxy.Text.{
  codes, ◌==◌, has_prefix, to_lower, lower, trim, trim_left, trim_right, trim_space,
  trim_suffix_dot, contains, drop, itoa, atoi,
}
use caddy_reverse_proxy.Text.Order.{at_most}
use caddy_reverse_proxy.Text.HostPort.{
  equal_fold, trim_suffix, cut, split_host_port, join_host_port,
}
use caddy_reverse_proxy.Model.{RouteConfig}
use caddy_reverse_proxy.Model.Config.{between_0_and_1}
use caddy_reverse_proxy.Routes.Normalize.{normalize_path_prefix}
use caddy_reverse_proxy.Caddy.{Matcher, Entry, Error, panicked}
use caddy_reverse_proxy.Caddy.Matchers.{
  trim_prefix, intersect_trimmed, intersect_path_prefixes, restricted_path_matchers, restrict_from,
  route_path_matchers, route_match, append_unique, append_new,
}
use caddy_reverse_proxy.Caddy.Matchers.Paths.{Below, BelowSome, intersect_path_prefixes_lem}
use caddy_reverse_proxy.Caddy.Policies.{
  auth_tokens, nonblank, token_policies, protected_header_policies, unique_header_names,
  unique_header_names_from, header_name_in,
}
use caddy_reverse_proxy.Caddy.Handlers.{
  assign, set_headers, reverse_proxy_handler, append_fields, route_log_handlers, proxy_handlers,
}
use caddy_reverse_proxy.Caddy.Entries.{
  render_route, guarded_match, render_upstreams, upstream_dial, render_security_entries,
  security_entries, reject_any, security_rejection, access_entries, protected_entries, proxy_entry,
  fallback_entry,
}
use caddy_reverse_proxy.Caddy.Entries.Forwarding.{Forwards}
use caddy_reverse_proxy.Caddy.Entries.Laws.{IsPermitted, EndsRefusing, render_route-IsPermitted}
use caddy_reverse_proxy.Caddy.Servers.{
  wildcard_certificate_covers_host, subject_covers, host_text, ensure_server, conflicts, add_server,
  update_server, listener_addresses_overlap, listener_address, admin_listen_from_endpoint,
  loopback_target,
}
use caddy_reverse_proxy.Caddy.Servers.Laws.{IsCovered, wildcard_certificate_covers_host_lem}
use caddy_reverse_proxy.Caddy.Tls.{
  tls_automation, certificate_issuer, renewal_window, acme_directory, azure_dns_provider,
}
use caddy_reverse_proxy.Caddy.Render.{
  CaddyConfig, render, with_management, management_route, ensure_default, place_routes, place_route,
  append_redirects, append_entries, skip_covered, skip_certificate, route_redirects, redirect_entry,
  route_address, route_protocol,
}
use caddy_reverse_proxy.Caddy.Render.Order.{sort_routes, insert_route, less}
use caddy_reverse_proxy.Caddy.Render.Order.Laws.{InOrder, kept, ties, sort_routes_lem}
use caddy_reverse_proxy.Caddy.Render.Listeners.{listeners}
use caddy_reverse_proxy.Caddy.Render.Laws.{render-ne-panicked}
use caddy_reverse_proxy.Caddy.Render.Rendered.{Compatible, render-Compatible}
use caddy_reverse_proxy.Caddy.Render.Served.{render-routes_at}
use caddy_reverse_proxy.Caddy.Render.Expected.{expected_entries, expected_redirects}
use caddy_reverse_proxy.Caddy.Render.Addresses.{routes_at}
use caddy_reverse_proxy.Caddy.Samples.{
  one_host, shop, api, small_auth, small_security, small_config,
}

abbrev ok_entries : Result Error (List Entry) → List Entry
ok_entries (ok entries) = entries
ok_entries (err e) = []

abbrev no_config : CaddyConfig
no_config = record {
  admin_listen = [];
  storage_root = [];
  servers = [];
  http_port = none;
  tls = none;
}

abbrev ok_config : Result Error CaddyConfig → CaddyConfig
ok_config (ok config) = config
ok_config (err e) = no_config

abbrev ok_routes : Result Error (List RouteConfig) → List RouteConfig
ok_routes (ok routes) = routes
ok_routes (err e) = []

abbrev shop_entries : List Entry
shop_entries = ok_entries (render_route one_host shop small_auth small_security [])

abbrev small_output : CaddyConfig
small_output = ok_config (render one_host small_config (shop ∷ api ∷ []))

abbrev small_routes : List RouteConfig
small_routes = ok_routes (with_management small_config (shop ∷ api ∷ []))

-- All that computes when a configuration is generated.
renderer : Unit {0}
unfolding render with_management management_route ensure_default ensure_server conflicts add_server
    update_server listener_addresses_overlap listener_address admin_listen_from_endpoint
    loopback_target place_routes place_route append_redirects append_entries skip_covered
    skip_certificate route_redirects redirect_entry route_address route_protocol sort_routes
    insert_route less render_route guarded_match render_upstreams upstream_dial
    render_security_entries security_entries reject_any security_rejection access_entries
    protected_entries proxy_entry fallback_entry assign set_headers reverse_proxy_handler
    append_fields route_log_handlers proxy_handlers auth_tokens nonblank token_policies
    protected_header_policies unique_header_names unique_header_names_from header_name_in
    append_unique append_new restricted_path_matchers restrict_from route_path_matchers route_match
    intersect_path_prefixes intersect_trimmed normalize_path_prefix trim_space trim trim_left
    trim_right contains any find has_prefix ◌==◌ to_lower lower trim_suffix_dot drop itoa atoi
    at_most equal_fold trim_suffix cut split_host_port join_host_port
    wildcard_certificate_covers_host subject_covers tls_automation certificate_issuer renewal_window
    acme_directory azure_dns_provider between_0_and_1
renderer = tt

shop_entries-ok : render_route one_host shop small_auth small_security [] ≡ ok shop_entries
unfolding renderer
shop_entries-ok = refl

small_routes-ok : with_management small_config (shop ∷ api ∷ []) ≡ ok small_routes
unfolding with_management management_route auth_tokens nonblank loopback_target trim_space trim
    trim_left trim_right contains any cut split_host_port ◌==◌
small_routes-ok = refl

small_output-ok : render one_host small_config (shop ∷ api ∷ []) ≡ ok small_output
unfolding renderer
small_output-ok = refl

intersect_path_prefixes_lem_example :
    (Below (codes "/a/b/c") (trim_prefix (codes "/a/"))
      × Below (codes "/a/b/c") (trim_prefix (codes "/a/b")))
    ↔ BelowSome (codes "/a/b/c") (intersect_path_prefixes (codes "/a/") (codes "/a/b"))
intersect_path_prefixes_lem_example =
    intersect_path_prefixes_lem (codes "/a/") (codes "/a/b") (codes "/a/b/c")

wildcard_certificate_covers_host_lem_example :
    (wildcard_certificate_covers_host (codes "*.example.com" ∷ []) (codes "Shop.example.com")
      ≡ true)
    ↔ ((has_prefix (host_text (codes "Shop.example.com")) (codes "*.") ≡ false)
        × Any
            (λ subject. IsCovered (host_text (codes "Shop.example.com")) (host_text subject))
            (codes "*.example.com" ∷ []))
wildcard_certificate_covers_host_lem_example =
    wildcard_certificate_covers_host_lem (codes "*.example.com" ∷ []) (codes "Shop.example.com")

sort_routes_lem_example :
    Distinct InOrder (sort_routes (shop ∷ api ∷ []))
    × (kept (ties shop) (sort_routes (shop ∷ api ∷ [])) ≡ kept (ties shop) (shop ∷ api ∷ []))
sort_routes_lem_example = sort_routes_lem (shop ∷ api ∷ []) shop

sorts_longer_first : sort_routes (shop ∷ api ∷ []) ≡ api ∷ shop ∷ []
unfolding sort_routes insert_route less trim_right to_lower lower has_prefix ◌==◌ at_most
sorts_longer_first = refl

render-ne-panicked_example : render one_host small_config (shop ∷ api ∷ []) ≢ err panicked
render-ne-panicked_example = render-ne-panicked one_host small_config (shop ∷ api ∷ [])

render_route-IsPermitted_example :
    All (Forwards (IsPermitted shop small_auth [])) shop_entries
    × (shop.is_protected ≡ true → EndsRefusing shop_entries)
render_route-IsPermitted_example =
    render_route-IsPermitted one_host shop small_auth small_security [] shop_entries shop_entries-ok

render-Compatible_example :
    (is_empty small_output.servers ≡ false) × Distinct Compatible (listeners small_output.servers)
render-Compatible_example =
    render-Compatible one_host small_config (shop ∷ api ∷ []) small_output small_output-ok

render-routes_at_example :
    routes_at (codes ":80") small_output.servers
    ≡ expected_entries one_host small_config (codes ":80") (sort_routes small_routes)
      ++ (if codes ":80" == codes ":80"
          then expected_redirects one_host small_config (sort_routes small_routes)
          else [])
render-routes_at_example =
    render-routes_at one_host small_config (shop ∷ api ∷ []) small_routes small_output (codes ":80")
      small_routes-ok small_output-ok
