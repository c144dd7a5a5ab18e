-- ===== src/Routes/Invariant/Runtime.antt =====
-- SetRuntimeStatus writes the same error to a rule and to the route that it compiles to.
use caddy_reverse_proxy.Common.{
  ◌≡◌, refl, ap, Option, none, some, List, [], ◌∷◌, map, ok, wrap_err, >>=-eq-ok, >>-eq-ok,
}
use caddy_reverse_proxy.Common.Lists.Laws.{All-map, Distinct-map, All-mono}
use caddy_reverse_proxy.Model.{Listener, BackendPool, RoutingRule, RouteConfig, RouteHealthStatus}
use caddy_reverse_proxy.Routes.Errors.{compile_failed}
use caddy_reverse_proxy.Routes.Std.{Std}
use caddy_reverse_proxy.Routes.Validate.{validate}
use caddy_reverse_proxy.Routes.Normalize.{normalize}
use caddy_reverse_proxy.Routes.Listeners.{find_listener}
use caddy_reverse_proxy.Routes.Pools.{find_backend_pool}
use caddy_reverse_proxy.Routes.Compile.{route_of_rule, compile_with, compile_rule, rebuild_routes}
use caddy_reverse_proxy.Routes.Store.{World}
use caddy_reverse_proxy.Routes.Runtime.{set_rule_error, set_route_error, set_runtime_status}
use caddy_reverse_proxy.Routes.Invariant.{IsRule, RulesApart, IsWellFormed}

normalize-set_rule_error :
    (statuses : List RouteHealthStatus) (l : Listener) (p : BackendPool) (r : RoutingRule)
    → normalize (route_of_rule l p (set_rule_error statuses r))
      ≡ set_route_error statuses (normalize (route_of_rule l p r))
unfolding normalize route_of_rule
normalize-set_rule_error statuses l p r = refl

module _ (std : Std) (statuses : List RouteHealthStatus) where
  validate-set_route_error :
      (r : RouteConfig) → validate std (set_route_error statuses r) ≡ validate std r
  unfolding validate
  validate-set_route_error r = refl

  compile_with-set_rule_error :
      (l : Option Listener) (p : Option BackendPool) (r : RoutingRule) {route : RouteConfig}
      → compile_with std l p r ≡ ok route
      → compile_with std l p (set_rule_error statuses r) ≡ ok (set_route_error statuses route)
  compile_with-set_rule_error none p r h = cc
  compile_with-set_rule_error (some l) none r h = cc
  compile_with-set_rule_error (some l) (some p) r {route} h =
      let n = normalize (route_of_rule l p r) in
      let (valid, e) = >>-eq-ok (wrap_err (compile_failed r.id) (validate std n)) (ok n) h in
      let same : n ≡ route = cc in
      rw (normalize-set_rule_error, validate-set_route_error, valid)
        (ap (λ q. ok (set_route_error statuses q)) same)

  compile_rule-set_rule_error :
      (ls : List Listener) (ps : List BackendPool) (r : RoutingRule) {route : RouteConfig}
      → compile_rule std ls ps r ≡ ok route
      → compile_rule std ls ps (set_rule_error statuses r) ≡ ok (set_route_error statuses route)
  unfolding compile_rule
  compile_rule-set_rule_error ls ps r h =
      compile_with-set_rule_error (find_listener ls r.listener_id)
        (find_backend_pool ps r.backend_pool_id) r h

  rebuild_routes-set_rule_error :
      (ls : List Listener) (ps : List BackendPool) (rs : List RoutingRule)
      {routes : List RouteConfig}
      → rebuild_routes std ls ps rs ≡ ok routes
      → rebuild_routes std ls ps (map (set_rule_error statuses) rs)
        ≡ ok (map (set_route_error statuses) routes)
  unfolding rebuild_routes
  rebuild_routes-set_rule_error ls ps [] {routes} h =
      let same : [] ≡ routes = cc in ap (λ q. ok (map (set_route_error statuses) q)) same
  rebuild_routes-set_rule_error ls ps (r ∷ rs) {routes} h =
      let (route, e, h1) = >>=-eq-ok (compile_rule std ls ps r) _ h in
      let (rest, e', h2) = >>=-eq-ok (rebuild_routes std ls ps rs) _ h1 in
      let same : route ∷ rest ≡ routes = cc in
      rw (compile_rule-set_rule_error ls ps r e, rebuild_routes-set_rule_error ls ps rs e')
        (ap (λ q. ok (map (set_route_error statuses) q)) same)

  IsRule-set_rule_error :
      (ls : List Listener) (ps : List BackendPool) (r : RoutingRule)
      → IsRule std ls ps r
      → IsRule std ls ps (set_rule_error statuses r)
  IsRule-set_rule_error ls ps r h = record {
    id = h.id;
    name = h.name;
    listener = h.listener;
    pool = h.pool;
    port = h.port;
    protocol = h.protocol;
    path = h.path;
    security = h.security;
  }

  pub set_runtime_status-IsWellFormed :
      (w : World)
      → IsWellFormed std w.store
      → IsWellFormed std (set_runtime_status statuses w).store
  unfolding set_runtime_status
  set_runtime_status-IsWellFormed w h =
      let s = w.store in
      let v = h.resources in
      record {
        resources = record {
          listeners = v.listeners;
          listeners_apart = v.listeners_apart;
          pools = v.pools;
          pools_apart = v.pools_apart;
          rules = All-map _ _ s.routing_rules (
              All-mono _ _ (IsRule-set_rule_error s.listeners s.backend_pools) s.routing_rules
                v.rules);
          rules_apart = Distinct-map RulesApart _ s.routing_rules v.rules_apart;
        };
        compiled =
            rebuild_routes-set_rule_error s.listeners s.backend_pools s.routing_rules h.compiled;
      }
