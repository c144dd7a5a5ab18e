-- ===== src/Reconcile.antt =====
-- backend/internal/reconcile/reconciler.go: the state of the reconciler and the services that it
-- calls. A sync has two parts. The first runs under `syncMu` and brings the routes to Caddy; the
-- second, the health checks and Azure, runs without a lock, so other syncs may start before it ends.
pub mod Prepare
pub mod Restore
pub mod Marked
pub mod Sync
pub mod Checks
pub mod Run
pub mod Rollback
pub mod Applied
pub mod Preserved
pub mod System
mod Tests
use caddy_reverse_proxy.Common.{
  ℕ, ◌+◌, ◌-◌, ◌%◌, ◌^◌, Bool, true, false, not, ◌&&◌, Option, none, some, List, [], ◌∷◌, Result,
  ok, err, eqb, if◌then◌else◌, is_empty,
}
use caddy_reverse_proxy.Text.{Text}
use caddy_reverse_proxy.Model.{RouteConfig, RouteHealthStatus, AzureResult, ReconcileResult}
use caddy_reverse_proxy.Model.Config.{AppConfig, CertificateConfig, GatewayConfig}
use caddy_reverse_proxy.Routes.Errors.{Error}
use caddy_reverse_proxy.Routes.Std.{Call}
use caddy_reverse_proxy.Routes.Store.{Snapshot, World, pending}
use caddy_reverse_proxy.Routes.Runtime.{set_runtime_status}

-- The Renderer and the text of errors. `Output` is what Render produces, the bytes for Caddy. The two
-- tests say whether the renderer is a ConfigUpdater and a CertificateUpdater.
pub record Services (Output : Type 0) : Type 0 where
  pub render : AppConfig → List RouteConfig → Result Text Output
  pub is_config_updater : Bool
  pub is_certificate_updater : Bool
  pub describe : Error → Text

-- The answer of Loader.Load: its error, and whether Caddy runs the new configuration. An error may
-- come after Caddy took it.
pub record LoadAnswer : Type 0 where
  pub error : Option Text
  pub taken : Bool

-- What the services answer during the first part of one sync.
pub record Answers (Output : Type 0) : Type 0 where
  pub started : ℕ
  -- The loader's Config, if it has one; `none` inside stands for no bytes.
  pub reads : Option (Result Text (Option Output))
  -- The load of the new configuration and that of the old one.
  pub load : LoadAnswer
  pub reload : LoadAnswer
  -- The discoverer, if there is one.
  pub discover : Option (Result Text (List RouteConfig))
  -- What the store's own call takes from the operating system.
  pub call : Call
  -- The end of a sync that fails.
  pub failed : ℕ

abbrev pub Commit : Type 0
Commit = Snapshot → World → Result Text (Unit {0}) × World

-- The arguments of sync.
pub record Request : Type 0 where
  pub preserve_pending_routes : Bool
  pub candidate : Option AppConfig
  pub commit : Option Commit

-- The state: the fields of Reconciler that change, the configuration that the renderer holds, the
-- store with its file, and what Caddy runs.
pub record Reconciler (Output : Type 0) : Type 0 where
  pub cfg : AppConfig
  pub renderer_cfg : AppConfig
  pub world : World
  pub last_discovered : List RouteConfig
  pub generation : ℕ
  pub last : ReconcileResult
  pub runtime : Option Output

abbrev pub no_azure : AzureResult
no_azure = record {
  enabled = false;
  dns_records = 0;
  dns_deleted = 0;
  nsg_rules = 0;
  nsg_deleted = 0;
  public_ip_address = [];
  warnings = [];
  error = [];
}

-- A result with its first fields, and zero values elsewhere.
unfoldable pub new_result : ℕ → Text → ℕ → ReconcileResult
new_result started profile explicit_routes = record {
  started_at = started;
  finished_at = 0;
  duration = 0;
  profile = profile;
  explicit_routes = explicit_routes;
  discovered_routes = 0;
  applied_routes = 0;
  health_checks = 0;
  unhealthy_routes = 0;
  caddy_loaded = false;
  route_health = [];
  azure = no_azure;
  error = [];
}

abbrev pub with_status : ReconcileResult → World → World
with_status result w =
    if result.caddy_loaded && not (is_empty result.route_health)
    then set_runtime_status result.route_health w
    else w

abbrev set_certificate : CertificateConfig → AppConfig → AppConfig
set_certificate cert cfg = record cfg { gateway = record cfg.gateway { certificate = cert } }

module _ {Output : Type 0} where
  unfoldable pub update_config : Services Output → AppConfig → Reconciler Output → Reconciler Output
  update_config services cfg r = record r {
    cfg = cfg;
    renderer_cfg = if services.is_config_updater then cfg else r.renderer_cfg;
  }

  unfoldable pub update_certificate :
      Services Output → CertificateConfig → Reconciler Output → Reconciler Output
  update_certificate services cert r = record r {
    cfg = set_certificate cert r.cfg;
    renderer_cfg =
        if services.is_certificate_updater
        then set_certificate cert r.renderer_cfg
        else r.renderer_cfg;
  }

  unfoldable pub routing_changes_pending : Reconciler Output → Bool
  routing_changes_pending r = pending r.world.store

  -- The end of a sync. The generation tells whether a later sync has started since. An empty list of
  -- statuses, which the code may pass on, changes nothing in the store. The audit event and the log
  -- entry leave nothing behind in this state.
  unfoldable pub finish :
      ℕ → ReconcileResult → ℕ → Reconciler Output → ReconcileResult × Reconciler Output
  finish now result generation r =
      let done = record result { finished_at = now; duration = now - result.started_at } in
      if eqb r.generation generation
      then (done, record r { world = with_status done r.world; last = done })
      else (done, r)
