-- ===== src/Caddy/Render.antt =====
-- backend/internal/caddy/config.go: Render, from routes to a configuration of Caddy.
pub mod Expected
pub mod Addresses
pub mod Order
pub mod Listeners
pub mod Panics
pub mod Placing
pub mod Laws
pub mod Rendered
pub mod Served
use caddy_reverse_proxy.Common.{
  Bool, true, false, not, ◌&&◌, ◌||◌, Option, none, some, List, [], ◌∷◌, ◌++◌, Result, ok, err,
  ◌>>=◌, ◌>>◌, fail_if, if◌then◌else◌, is_empty, any,
}
use caddy_reverse_proxy.Common.Int.{ℤ, pos, gt_ℤ}
use caddy_reverse_proxy.Text.{Text, codes, ◌==◌, atoi}
use caddy_reverse_proxy.Text.HostPort.{split_host_port}
use caddy_reverse_proxy.Model.{RouteSecurityConfig, RouteConfig}
use caddy_reverse_proxy.Model.Config.{AppConfig, CertificateConfig, GatewayConfig}
use caddy_reverse_proxy.Routes.Std.{Std}
use caddy_reverse_proxy.Caddy.{
  Matcher, redirect, Entry, Server, Error, management_host_needs_token, no_listener, panicked,
  no_default_listener, bad_listener,
}
use caddy_reverse_proxy.Caddy.Matchers.{append_unique, route_path_matchers}
use caddy_reverse_proxy.Caddy.Policies.{auth_tokens}
use caddy_reverse_proxy.Caddy.Entries.{render_route}
use caddy_reverse_proxy.Caddy.Servers.{
  at_address, ensure_server, update_server, wildcard_certificate_covers_host, loopback_target,
  listener_address, admin_listen_from_endpoint,
}
use caddy_reverse_proxy.Caddy.Tls.{TlsApp, tls_automation}
use caddy_reverse_proxy.Caddy.Render.Order.{sort_routes}

-- What Render passes to json.MarshalIndent.
pub record CaddyConfig : Type 0 where
  pub admin_listen : Text
  pub storage_root : Text
  pub servers : List Server
  pub http_port : Option ℤ
  pub tls : Option TlsApp

abbrev no_security : RouteSecurityConfig
no_security = record {
  disabled = false;
  max_request_body_bytes = pos 0;
  additional_denied_methods = [];
  additional_denied_path_prefixes = [];
  allowed_cidrs = [];
  blocked_cidrs = [];
}

-- The fields that the literal of the source leaves out have their zero values.
unfoldable pub management_route : AppConfig → RouteConfig
management_route cfg = record {
  id = codes "management-ui";
  name = [];
  host = cfg.control.management_host;
  listener_id = [];
  listener_name = [];
  listener_port = pos 0;
  listener_protocol = [];
  backend_pool_id = [];
  backend_pool_name = [];
  path_prefix = [];
  exposure = codes "public";
  enabled = true;
  is_public = true;
  https = true;
  web_socket = false;
  is_protected = false;
  source = codes "management";
  headers = [];
  security = no_security;
  upstreams =
      record {
        name = codes "management-ui";
        url = codes "http://" ++ loopback_target cfg.control.listen;
        health_path = [];
      }
      ∷ [];
  discovered = false;
  last_error = [];
  last_updated = 0;
}

unfoldable pub with_management : AppConfig → List RouteConfig → Result Error (List RouteConfig)
unfolding management_route
with_management cfg input =
    if cfg.control.management_host == []
    then ok input
    else fail_if (not cfg.auth.required || is_empty (auth_tokens cfg.auth))
        management_host_needs_token
      >> ok (input ++ management_route cfg ∷ [])

unfoldable pub route_protocol : RouteConfig → Text
route_protocol route =
    if route.listener_protocol == []
    then (if route.https then codes "https" else codes "http")
    else route.listener_protocol

unfoldable pub route_address : GatewayConfig → RouteConfig → Text
unfolding route_protocol
route_address cfg route =
    if gt_ℤ route.listener_port 0
    then listener_address cfg (route_protocol route) route.listener_port
    else if route_protocol route == codes "https"
    then cfg.https_listen
    else cfg.http_listen

-- A default listener that is configured has a server, also without routes.
unfoldable pub ensure_default : Text → Text → List Server → Result Error (List Server)
ensure_default address protocol servers =
    if address == [] then ok servers else ensure_server address protocol servers

unfoldable pub skip_certificate : Text → Server → Server
skip_certificate host server = record server {
  skip_certificates = append_unique server.skip_certificates (host ∷ []);
}

unfoldable pub append_entries : List Entry → Server → Server
append_entries entries server = record server { routes = server.routes ++ entries }

unfoldable pub skip_covered : CertificateConfig → RouteConfig → Text → List Server → List Server
unfolding skip_certificate
skip_covered certificate route address servers =
    if route_protocol route == codes "https"
      && wildcard_certificate_covers_host certificate.subjects route.host
    then update_server (skip_certificate route.host) address servers
    else servers

-- The redirect to port `port` of an https listener.
unfoldable pub redirect_entry : RouteConfig → Text → Entry
redirect_entry route port = record {
  matcher = record {
    host = route.host ∷ [];
    expression = none;
    protocol = none;
    path = if route.path_prefix == [] then none else some (route_path_matchers route.path_prefix);
    remote_ip = none;
    not_remote_ip = none;
    method = none;
    header = none;
  };
  handle =
      redirect 308 (
        codes "https://{http.request.host}"
        ++ ((if port == codes "443" then [] else codes ":" ++ port) ++ codes "{http.request.uri}"))
      ∷ [];
}

abbrev pub redirect_at : RouteConfig → Text → Option (Text × Text) → Result Error (List Entry)
redirect_at route address none = err (bad_listener address)
redirect_at route address (some (host, port)) = ok (redirect_entry route port ∷ [])

unfoldable pub route_redirects : GatewayConfig → RouteConfig → Text → Result Error (List Entry)
unfolding redirect_entry
route_redirects cfg route address =
    if route_protocol route == codes "https" && not (cfg.http_listen == [])
    then redirect_at route address (split_host_port address)
    else ok []

-- What the loop over the routes carries: `servers` and `redirects`.
pub record Progress : Type 0 where
  pub servers : List Server
  pub redirects : List Entry

module _ (std : Std) (cfg : AppConfig) where
  -- A turn of the loop, for a route that is enabled.
  unfoldable pub place_route : RouteConfig → Progress → Result Error Progress
  unfolding skip_covered append_entries route_redirects
  place_route route progress =
      let address = route_address cfg.gateway route in
      fail_if (address == []) (no_default_listener route.id (route_protocol route))
      >> (ensure_server address (route_protocol route) progress.servers >>= λ servers.
          render_route std route cfg.auth cfg.security cfg.gateway.internal_source_ranges
          >>= λ entries. route_redirects cfg.gateway route address >>= λ redirects. ok (record {
            servers =
                update_server (append_entries entries) address
                  (skip_covered cfg.gateway.certificate route address servers);
            redirects = progress.redirects ++ redirects;
          }))

  unfoldable pub place_routes : List RouteConfig → Progress → Result Error Progress
  unfolding place_route
  place_routes [] progress = ok progress
  place_routes (route ∷ routes) progress =
      (if route.enabled then place_route route progress else ok progress) >>= λ next.
      place_routes routes next

-- Redirects are served at the default http listener, whose server is asserted to exist.
unfoldable pub append_redirects : Text → Progress → Result Error (List Server)
unfolding append_entries
append_redirects http_listen progress =
    if is_empty progress.redirects
    then ok progress.servers
    else if any (at_address http_listen) progress.servers
    then ok (update_server (append_entries progress.redirects) http_listen progress.servers)
    else err panicked

abbrev port_number : Option (Text × Text) → Option ℤ
port_number none = none
port_number (some (host, port)) = atoi port

unfoldable pub render : Std → AppConfig → List RouteConfig → Result Error CaddyConfig
unfolding with_management ensure_default place_routes append_redirects sort_routes
render std cfg input = with_management cfg input >>= λ routes.
    ensure_default cfg.gateway.http_listen (codes "http") [] >>= λ first.
    ensure_default cfg.gateway.https_listen (codes "https") first >>= λ servers.
    place_routes std cfg (sort_routes routes) (record { servers = servers; redirects = [] })
    >>= λ progress. append_redirects cfg.gateway.http_listen progress >>= λ all.
        fail_if (is_empty all) no_listener
        >> ok (record {
          admin_listen = admin_listen_from_endpoint std cfg.gateway.caddy_admin_endpoint;
          storage_root = cfg.gateway.caddy_data_dir;
          servers = all;
          http_port = port_number (split_host_port cfg.gateway.http_listen);
          tls = tls_automation cfg.gateway.certificate;
        })
