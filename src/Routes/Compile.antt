-- ===== src/Routes/Compile.antt =====
-- backend/internal/routes/resources.go: rebuildRoutesLocked, from resources to routes.
use caddy_reverse_proxy.Common.{
  Option, some, List, [], ◌∷◌, ◌++◌, map, Result, ok, err, ◌>>=◌, ◌>>◌, wrap_err, if◌then◌else◌,
  false,
}
use caddy_reverse_proxy.Common.Int.{pos, eq_ℤ}
use caddy_reverse_proxy.Text.{codes, ◌==◌}
use caddy_reverse_proxy.Model.{
  Listener, BackendTarget, BackendPool, RoutingRule, UpstreamTarget, RouteConfig,
}
use caddy_reverse_proxy.Routes.Errors.{Error, missing_resources, compile_failed}
use caddy_reverse_proxy.Routes.Std.{Std}
use caddy_reverse_proxy.Routes.Normalize.{source_or, host_port, normalize}
use caddy_reverse_proxy.Routes.Validate.{validate}
use caddy_reverse_proxy.Routes.Listeners.{find_listener}
use caddy_reverse_proxy.Routes.Pools.{find_backend_pool}

unfoldable pub compile_target : RoutingRule → BackendPool → BackendTarget → UpstreamTarget
compile_target r p target =
    let port = if eq_ℤ target.port (pos 0) then r.backend_port else target.port in
    record {
      name = source_or target.name p.name;
      url = r.backend_protocol ++ codes "://" ++ host_port target.address port;
      health_path = (if target.health_path == [] then r.health_path else target.health_path);
    }

-- The literal of rebuildRoutesLocked; the fields that it leaves out are the zero values.
unfoldable pub route_of_rule : Listener → BackendPool → RoutingRule → RouteConfig
unfolding compile_target
route_of_rule l p r = record {
  id = r.id;
  name = r.name;
  host = l.hostname;
  listener_id = l.id;
  listener_name = l.name;
  listener_port = l.port;
  listener_protocol = l.protocol;
  backend_pool_id = p.id;
  backend_pool_name = p.name;
  path_prefix = r.path_prefix;
  exposure = r.exposure;
  enabled = r.enabled;
  is_public = false;
  https = l.protocol == codes "https";
  web_socket = r.web_socket;
  is_protected = false;
  source = source_or r.source (codes "explicit");
  headers = r.headers;
  security = r.security;
  upstreams = map (compile_target r p) p.targets;
  discovered = false;
  last_error = r.last_error;
  last_updated = r.last_updated;
}

module _ (std : Std) where
  abbrev pub compile_with :
      Option Listener → Option BackendPool → RoutingRule → Result Error RouteConfig
  compile_with (some l) (some p) r = do
    let route = normalize (route_of_rule l p r)
    wrap_err (compile_failed r.id) (validate std route)
    ok route
  compile_with _ _ r = err (missing_resources r.id)

  unfoldable pub compile_rule :
      List Listener → List BackendPool → RoutingRule → Result Error RouteConfig
  compile_rule listeners pools r =
      compile_with (find_listener listeners r.listener_id)
        (find_backend_pool pools r.backend_pool_id) r

  -- s.rebuildRoutesLocked: the new routes
  unfoldable pub rebuild_routes :
      List Listener → List BackendPool → List RoutingRule → Result Error (List RouteConfig)
  rebuild_routes listeners pools [] = ok []
  rebuild_routes listeners pools (r ∷ rules) = do
    route ← compile_rule listeners pools r
    routes ← rebuild_routes listeners pools rules
    ok (route ∷ routes)
