-- ===== src/Reconcile/Checks.antt =====
-- backend/internal/reconcile/reconciler.go: the part of sync behind its mutex, the health checks and
-- Azure.
use caddy_reverse_proxy.Common.{
  ℕ, zero, suc, Bool, true, Option, none, some, List, [], ◌∷◌, ◌++◌, if◌then◌else◌, length,
}
use caddy_reverse_proxy.Text.{Text, codes, ◌==◌}
use caddy_reverse_proxy.Model.{RouteConfig, RouteHealthStatus, AzureResult, ReconcileResult}
use caddy_reverse_proxy.Model.Config.{AppConfig}
use caddy_reverse_proxy.Caddy.Render.{management_route}
use caddy_reverse_proxy.Reconcile.{Reconciler, no_azure, finish}
use caddy_reverse_proxy.Reconcile.Sync.{Pending}

-- What the services of the second part answer: the health checker and the Azure manager, if there
-- are any, and whether the checks have been cancelled when Azure's turn comes.
pub record CheckAnswers : Type 0 where
  pub check : Option (List RouteConfig → List RouteHealthStatus)
  pub azure : Option (List RouteConfig → AzureResult)
  pub cancelled : Bool
  pub finished : ℕ

unfoldable pub count_unhealthy : List RouteHealthStatus → ℕ
count_unhealthy [] = zero
count_unhealthy (status ∷ statuses) =
    let rest = count_unhealthy statuses in if status.healthy then rest else suc rest

unfoldable pub with_health :
    Option (List RouteConfig → List RouteHealthStatus)
    → List RouteConfig
    → ReconcileResult
    → ReconcileResult
unfolding count_unhealthy
with_health none routes result = result
with_health (some check) routes result = record result {
  route_health = check routes;
  health_checks = length (check routes);
  unhealthy_routes = count_unhealthy (check routes);
}

-- The management host as a route, as Azure sees it.
unfoldable pub azure_management_route : AppConfig → RouteConfig
unfolding management_route
azure_management_route cfg = record (management_route cfg) {
  exposure = codes "protected";
  is_protected = true;
  upstreams = [];
}

unfoldable pub azure_routes : AppConfig → List RouteConfig → List RouteConfig
unfolding azure_management_route
azure_routes cfg routes =
    if cfg.control.management_host == [] then routes else routes ++ azure_management_route cfg ∷ []

abbrev error_or : Text → Text → Text
error_or old new = if new == [] then old else new

unfoldable pub with_azure :
    Option (List RouteConfig → AzureResult)
    → Bool
    → AppConfig
    → List RouteConfig
    → ReconcileResult
    → ReconcileResult
unfolding azure_routes
with_azure none cancelled cfg routes result = result
with_azure (some reconcile) cancelled cfg routes result =
    let azure = if cancelled then no_azure else reconcile (azure_routes cfg routes) in
    record result { azure = azure; error = error_or result.error azure.error }

module _ {Output : Type 0} where
  -- sync from the release of its mutex to its end.
  unfoldable pub check :
      CheckAnswers → Pending → Reconciler Output → ReconcileResult × Reconciler Output
  unfolding with_health with_azure finish
  check answers p r =
      finish answers.finished
        (with_azure answers.azure answers.cancelled p.cfg p.routes
          (with_health answers.check p.routes p.result))
        p.generation r
