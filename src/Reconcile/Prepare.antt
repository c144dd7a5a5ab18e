-- ===== src/Reconcile/Prepare.antt =====
-- backend/internal/reconcile/reconciler.go: what sync finds out before it renders: the snapshot and the
-- discovered routes.
use caddy_reverse_proxy.Common.{
  ℕ, Bool, true, false, Option, none, some, List, [], ◌++◌, Result, ok, err, length,
}
use caddy_reverse_proxy.Text.{Text}
use caddy_reverse_proxy.Model.{RouteConfig, ReconcileResult}
use caddy_reverse_proxy.Model.Config.{AppConfig}
use caddy_reverse_proxy.Routes.Store.{Snapshot, desired_snapshot}
use caddy_reverse_proxy.Reconcile.{
  Services, Answers, Request, Reconciler, new_result, update_config,
}
use caddy_reverse_proxy.Reconcile.Restore.{Previous}

-- What sync has found out before it loads: its result so far, the configuration, the previous state,
-- the snapshot, all routes and the generation.
pub record Prepared (Output : Type 0) : Type 0 where
  pub result : ReconcileResult
  pub cfg : AppConfig
  pub previous : Previous Output
  pub snapshot : Snapshot
  pub routes : List RouteConfig
  pub generation : ℕ

module _ {Output : Type 0} where
  abbrev pub previous_of : Option Output → Reconciler Output → Previous Output
  previous_of runtime r = record {
    cfg = r.cfg;
    applied = r.world.store.applied;
    discovered = r.last_discovered;
    runtime = runtime;
  }

  abbrev pub use_candidate :
      Services Output → Option AppConfig → Reconciler Output → Reconciler Output
  use_candidate services none r = r
  use_candidate services (some candidate) r = update_config services candidate r

  -- The discovered routes; those of the last success when the discovery fails.
  unfoldable pub discover :
      Option (Result Text (List RouteConfig))
      → Reconciler Output
      → List RouteConfig × Reconciler Output
  discover none r = ([], r)
  discover (some (err e)) r = (r.last_discovered, r)
  discover (some (ok routes)) r = (routes, record r { last_discovered = routes })

  unfoldable pub snapshot_of : Bool → Reconciler Output → Snapshot
  snapshot_of true r = r.world.store.applied
  snapshot_of false r = desired_snapshot r.world.store

  abbrev pub prepared :
      ℕ → Snapshot → Previous Output → AppConfig → ℕ → List RouteConfig → Prepared Output
  prepared started snapshot previous cfg generation discovered = record {
    result = record (new_result started cfg.profile (length snapshot.routes)) {
      discovered_routes = length discovered;
    };
    cfg = cfg;
    previous = previous;
    snapshot = snapshot;
    routes = snapshot.routes ++ discovered;
    generation = generation;
  }

  unfoldable pub prepare :
      Services Output
      → Answers Output
      → Request
      → Option Output
      → Reconciler Output
      → Prepared Output × Reconciler Output
  unfolding snapshot_of discover new_result update_config
  prepare services answers request runtime r =
      let previous = previous_of runtime r in
      let r1 = use_candidate services request.candidate r in
      let snapshot = snapshot_of request.preserve_pending_routes r1 in
      let (discovered, r2) = discover answers.discover r1 in
      (prepared answers.started snapshot previous r1.cfg r.generation discovered, r2)
