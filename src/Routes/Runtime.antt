-- ===== src/Routes/Runtime.antt =====
-- backend/internal/routes/store.go: SetRuntimeStatus.
use caddy_reverse_proxy.Common.{Option, none, some, List, [], ◌∷◌, map, if◌then◌else◌}
use caddy_reverse_proxy.Text.{Text, ◌==◌}
use caddy_reverse_proxy.Model.{RoutingRule, RouteConfig, RouteHealthStatus}
use caddy_reverse_proxy.Routes.Store.{World, set_store}

abbrev or_else {ℓ} : {A : Type ℓ} → Option A → Option A → Option A
or_else none b = b
or_else (some a) b = some a

-- The map of SetRuntimeStatus: of two statuses of one route, the later one.
unfoldable pub status_of : List RouteHealthStatus → Text → Option RouteHealthStatus
status_of [] id = none
status_of (status ∷ statuses) id =
    or_else (status_of statuses id) (if status.route_id == id then some status else none)

unfoldable pub error_after : List RouteHealthStatus → Text → Text → Text
error_after statuses id last = elim (status_of statuses id) [
  | none ↦ last
  | some status ↦ if status.healthy then [] else status.error
]

abbrev pub set_rule_error : List RouteHealthStatus → RoutingRule → RoutingRule
set_rule_error statuses r = record r { last_error = error_after statuses r.id r.last_error }

abbrev pub set_route_error : List RouteHealthStatus → RouteConfig → RouteConfig
set_route_error statuses r = record r { last_error = error_after statuses r.id r.last_error }

unfoldable pub set_runtime_status : List RouteHealthStatus → World → World
set_runtime_status statuses w = set_store w (record w.store {
  routes = map (set_route_error statuses) w.store.routes;
  routing_rules = map (set_rule_error statuses) w.store.routing_rules;
})
