-- ===== src/Routes/Compat/Checks.antt =====
-- backend/internal/routes/resources.go: what the compatibility routes check before their snapshot.
use caddy_reverse_proxy.Common.{not, ◌&&◌, List, [], ◌∷◌, ◌>>◌, ◌>>=◌, Result, ok, fail_if}
use caddy_reverse_proxy.Text.{◌==◌}
use caddy_reverse_proxy.Model.{RoutingRule, RouteConfig}
use caddy_reverse_proxy.Routes.Errors.{
  Error, route, id_required, not_found, id_exists, route_exists,
}
use caddy_reverse_proxy.Routes.Std.{Std}
use caddy_reverse_proxy.Routes.Validate.{validate}
use caddy_reverse_proxy.Routes.Normalize.{normalize}
use caddy_reverse_proxy.Routes.Rules.{find_routing_rule}
use caddy_reverse_proxy.Routes.Store.{Store}
use caddy_reverse_proxy.Routes.Operations.{or_not_found}

-- The loop over the routes there are of addCompatibilityRoute.
unfoldable pub check_new_route : RouteConfig → List RouteConfig → Result Error (Unit {0})
check_new_route r [] = ok tt
check_new_route r (existing ∷ routes) = do
  fail_if (not (r.id == []) && existing.id == r.id) (id_exists route r.id)
  fail_if (existing.host == r.host && existing.path_prefix == r.path_prefix)
      (route_exists r.host r.path_prefix)
  check_new_route r routes

-- The loop of replaceCompatibilityRoute.
unfoldable pub check_replaced_route : RouteConfig → List RouteConfig → Result Error (Unit {0})
check_replaced_route r [] = ok tt
check_replaced_route r (existing ∷ routes) = do
  fail_if
      (not (existing.id == r.id)
        && existing.host == r.host
        && existing.path_prefix == r.path_prefix)
      (route_exists r.host r.path_prefix)
  check_replaced_route r routes

module _ (std : Std) where
  -- addCompatibilityRoute up to its snapshot: the normal form to migrate
  unfoldable pub addable_route : RouteConfig → Store → Result Error RouteConfig
  addable_route raw s = do
    validate std raw
    check_new_route (normalize raw) s.routes
    ok (normalize raw)

  -- replaceCompatibilityRoute up to its snapshot: the rule to replace
  unfoldable pub replaceable_rule : RouteConfig → Store → Result Error RoutingRule
  replaceable_rule raw s = do
    fail_if (raw.id == []) (id_required route)
    validate std raw
    old ← or_not_found (not_found route raw.id) (find_routing_rule s.routing_rules raw.id)
    check_replaced_route (normalize raw) s.routes
    ok old
