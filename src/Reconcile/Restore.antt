-- ===== src/Reconcile/Restore.antt =====
-- backend/internal/reconcile/reconciler.go: restoreRuntime, which goes back to the state before a sync.
use caddy_reverse_proxy.Common.{
  ℕ, false, Option, none, some, List, ◌++◌, Result, ok, err, if◌then◌else◌, length,
}
use caddy_reverse_proxy.Text.{Text, codes}
use caddy_reverse_proxy.Model.{RouteConfig, ReconcileResult}
use caddy_reverse_proxy.Model.Config.{AppConfig}
use caddy_reverse_proxy.Routes.Store.{Snapshot}
use caddy_reverse_proxy.Reconcile.{
  Services, LoadAnswer, Answers, Request, Reconciler, update_config,
}

-- What restoreRuntime goes back to: `previousConfig`, `previous`, `previousDiscovered` and
-- `previousRuntime`.
pub record Previous (Output : Type 0) : Type 0 where
  pub cfg : AppConfig
  pub applied : Snapshot
  pub discovered : List RouteConfig
  pub runtime : Option Output

abbrev pub rollback_error : ReconcileResult → Text → ReconcileResult
rollback_error result e = record result {
  error = result.error ++ (codes "; restore previous runtime configuration: " ++ e);
}

abbrev pub reload_result : ℕ → ReconcileResult → Option Text → ReconcileResult
reload_result count result none = record result { caddy_loaded = false; applied_routes = count }
reload_result count result (some e) = rollback_error result e

module _ {Output : Type 0} where
  -- `if candidate != nil { r.UpdateConfig(cfg) }`
  unfoldable pub update_for :
      Services Output → Option AppConfig → AppConfig → Reconciler Output → Reconciler Output
  unfolding update_config
  update_for services none cfg r = r
  update_for services (some candidate) cfg r = update_config services cfg r

  -- Loader.Load
  unfoldable pub load : LoadAnswer → Output → Reconciler Output → Option Text × Reconciler Output
  load answer output r =
      (answer.error, if answer.taken then record r { runtime = some output } else r)

  abbrev pub reload :
      LoadAnswer
      → ℕ
      → ReconcileResult
      → Result Text Output
      → Reconciler Output
      → ReconcileResult × Reconciler Output
  reload answer count result (err e) r = (rollback_error result e, r)
  reload answer count result (ok output) r =
      let (error, r') = load answer output r in (reload_result count result error, r')

  -- The configuration that is loaded again: what was read, or what the previous routes render to.
  unfoldable pub rollback_output :
      Services Output → Previous Output → Reconciler Output → Result Text Output
  rollback_output services previous r = elim previous.runtime [
    | some output ↦ ok output
    | none ↦ services.render r.renderer_cfg (previous.applied.routes ++ previous.discovered)
  ]

  unfoldable pub restore_runtime :
      Services Output
      → Answers Output
      → Request
      → Previous Output
      → ReconcileResult
      → Reconciler Output
      → ReconcileResult × Reconciler Output
  unfolding rollback_output load update_for
  restore_runtime services answers request previous result r =
      let r' = update_for services request.candidate previous.cfg r in
      reload answers.reload (length (previous.applied.routes ++ previous.discovered)) result
        (rollback_output services previous r') r'
