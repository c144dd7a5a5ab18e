-- ===== src/Caddy/Handlers.antt =====
-- backend/internal/caddy/config.go: the handlers of a generated route. A map of headers is a list in
-- the order in which the code happens to go through it.
pub mod Laws
use caddy_reverse_proxy.Common.{Bool, ◌||◌, List, [], ◌∷◌, ◌++◌, if◌then◌else◌}
use caddy_reverse_proxy.Common.Int.{ℤ, gt_ℤ}
use caddy_reverse_proxy.Text.{Text, codes, ◌==◌, to_lower, trim_space}
use caddy_reverse_proxy.Text.HostPort.{equal_fold}
use caddy_reverse_proxy.Model.{RouteConfig}
use caddy_reverse_proxy.Caddy.{ReverseProxy, Handler, log_append, request_body, reverse_proxy}
use caddy_reverse_proxy.Caddy.Policies.{header_name_in}

-- m[name] = value
unfoldable pub assign : Text → Text → List (Text × Text) → List (Text × Text)
assign name value [] = (name, value) ∷ []
assign name value ((key, old) ∷ m) =
    if key == name then (name, value) ∷ m else (key, old) ∷ assign name value m

abbrev pub canonical_name : Text → Text
canonical_name name = if equal_fold name (codes "Host") then codes "Host" else name

abbrev pub set_header : List Text → Text → Text → List (Text × Text) → List (Text × Text)
set_header strip name value set =
    if name == [] || header_name_in name strip then set else assign (canonical_name name) value set

unfoldable pub set_headers :
    List Text → List (Text × Text) → List (Text × Text) → List (Text × Text)
unfolding assign header_name_in
set_headers strip set [] = set
set_headers strip set ((name, value) ∷ headers) =
    set_headers strip (set_header strip (trim_space name) value set) headers

unfoldable pub reverse_proxy_handler :
    List Text → Bool → List Text → List (Text × Text) → ReverseProxy
unfolding set_headers
reverse_proxy_handler upstreams use_tls strip headers = record {
  upstreams = upstreams;
  tls = use_tls;
  deleted = strip;
  headers =
      set_headers strip
        (if use_tls then (codes "Host", codes "{http.request.hostport}") ∷ [] else []) headers;
}

abbrev pub log_protocol : RouteConfig → Text → Text
log_protocol route protocol =
    if protocol == [] then (if route.https then codes "https" else codes "http") else protocol

-- The fields of the access log, before those without a value are left out.
abbrev pub log_fields : RouteConfig → List (Text × Text)
log_fields route =
    (codes "route_id", route.id)
    ∷ (codes "route_name", route.name)
    ∷ (codes "route_host", route.host)
    ∷ (codes "route_path", route.path_prefix)
    ∷ (codes "listener_id", route.listener_id)
    ∷ (codes "listener_name", route.listener_name)
    ∷ (
      codes "listener_protocol",
      log_protocol route (to_lower (trim_space route.listener_protocol)),
    )
    ∷ (codes "listener_port", codes "{http.request.local.port}")
    ∷ (codes "backend_pool_id", route.backend_pool_id)
    ∷ (codes "backend_pool_name", route.backend_pool_name)
    ∷ []

unfoldable pub append_fields : List (Text × Text) → List Handler → List Handler
append_fields [] final = final
append_fields ((key, value) ∷ fields) final =
    let rest = append_fields fields final in
    if value == [] then rest else log_append key value ∷ rest

unfoldable pub route_log_handlers : RouteConfig → List Handler → List Handler
unfolding append_fields
route_log_handlers route final = append_fields (log_fields route) final

unfoldable pub proxy_handlers : RouteConfig → ℤ → ReverseProxy → List Handler
unfolding route_log_handlers
proxy_handlers route max_request_body_bytes proxy =
    route_log_handlers route []
    ++ ((if gt_ℤ max_request_body_bytes 0 then request_body max_request_body_bytes ∷ [] else [])
        ++ log_append (codes "upstream_host") (codes "{http.reverse_proxy.upstream.host}")
          ∷ log_append (codes "upstream_duration_ms")
              (codes "{http.reverse_proxy.upstream.duration_ms}")
          ∷ log_append (codes "upstream_latency_ms")
              (codes "{http.reverse_proxy.upstream.latency_ms}")
          ∷ reverse_proxy proxy
          ∷ [])
