-- ===== src/Routes/Calls/Safety.antt =====
-- Every method, whether it succeeds or fails, leaves a well-formed store.
mod Methods
use caddy_reverse_proxy.Common.{
  ◌≡◌, refl, List, [], ◌∷◌, Result, ok, err, Bool, true, false, ltb, ◌||◌,
}
use caddy_reverse_proxy.Common.Int.{eq_ℤ}
use caddy_reverse_proxy.Text.{Text}
use caddy_reverse_proxy.Model.{RouteConfig}
use caddy_reverse_proxy.Routes.Errors.{Error, stale_revision}
use caddy_reverse_proxy.Routes.Std.{Std, Call}
use caddy_reverse_proxy.Routes.Compile.{rebuild_routes}
use caddy_reverse_proxy.Persistence.{Disk}
use caddy_reverse_proxy.Routes.Store.{
  ResourceSet, Snapshot, Content, Store, World, Outcome, new_store, save_locked, set_store,
  resource_set_version,
}
use caddy_reverse_proxy.Routes.Commit.{
  checked, commit_or_restore, returning, rebuild_store, mark_applied, persist_staged,
  finish_applied, finish_persist,
}
use caddy_reverse_proxy.Routes.Operations.{
  add_listener, replace_listener, delete_listener, add_backend_pool, replace_backend_pool,
  delete_backend_pool, add_routing_rule, replace_routing_rule, delete_routing_rule,
  replace_resources, stage_resources, with_resources, normalized_or, stage_rebuilt,
  stage_normalized, normalize_resources_locked,
}
use caddy_reverse_proxy.Routes.Compat.{
  add_compatibility_route, replace_compatibility_route, delete_compatibility_route,
  migrate_route_locked,
}
use caddy_reverse_proxy.Routes.Compat.Pruning.{remove_rule}
use caddy_reverse_proxy.Routes.Invariant.{IsWellFormed}
use caddy_reverse_proxy.Routes.Invariant.Changes.{
  IsStoreValid, add_listener_change-IsStoreValid, add_pool_change-IsStoreValid,
  add_rule_change-IsStoreValid, normalize_resources_locked-IsStoreValid,
}
use caddy_reverse_proxy.Routes.Invariant.Replacements.{
  replace_listener_change-IsStoreValid, replace_pool_change-IsStoreValid,
  replace_rule_change-IsStoreValid,
}
use caddy_reverse_proxy.Routes.Invariant.Deletions.{
  delete_listener_change-IsStoreValid, delete_pool_change-IsStoreValid,
  delete_rule_change-IsStoreValid,
}
use caddy_reverse_proxy.Routes.Invariant.Commit.{
  save_locked-store, if-outcome, restore_locked-IsWellFormed, returning-store,
  commit_change-IsWellFormed, commit_or_restore-IsWellFormed,
}
use caddy_reverse_proxy.Routes.Invariant.Compat.{migrate_route_locked-Keeps}
use caddy_reverse_proxy.Routes.Invariant.Prune.{IsStoreValid-IsStable, remove_rule-IsStoreValid}
use caddy_reverse_proxy.Routes.Invariant.Load.{load-IsWellFormed}
use caddy_reverse_proxy.Routes.Invariant.Runtime.{set_runtime_status-IsWellFormed}
use caddy_reverse_proxy.Routes.Calls.{
  Method, new_listener, changed_listener, no_listener, no_pool, no_rule, no_route, new_pool,
  changed_pool, new_rule, changed_rule, new_route, changed_route, all_resources, staged_resources,
  statuses, applied, persist, reload, run, run_all,
}
use caddy_reverse_proxy.Routes.Calls.Safety.Methods.{
  Good, stage_resources-Good, replace_resources-Good, returning-Good, add_compatibility_route-Good,
  replace_compatibility_route-Good, delete_compatibility_route-Good, mark_applied-Good,
  persist_staged-Good,
}

module _ (std : Std) where
  -- Whatever method is called, with whatever arguments and whatever fails, a well-formed store is
  -- well-formed afterwards.
  pub run-IsWellFormed :
      (call : Call) (method : Method) (w : World)
      → IsWellFormed std w.store
      → IsWellFormed std (run std call method w).1.store
  unfolding run add_listener replace_listener delete_listener add_backend_pool replace_backend_pool
      delete_backend_pool add_routing_rule replace_routing_rule delete_routing_rule
  run-IsWellFormed call (new_listener l) w h = returning-Good std tt _ (
      commit_change-IsWellFormed std call w _ h
        λ a s e. add_listener_change-IsStoreValid std call.now l w.store e h.resources)
  run-IsWellFormed call (changed_listener l) w h = returning-Good std tt _ (
      commit_change-IsWellFormed std call w _ h
        λ a s e. replace_listener_change-IsStoreValid std call.now l w.store e h.resources)
  run-IsWellFormed call (no_listener id) w h =
      commit_change-IsWellFormed std call w _ h
        λ a s e. delete_listener_change-IsStoreValid std id w.store e h.resources
  run-IsWellFormed call (no_pool id) w h =
      commit_change-IsWellFormed std call w _ h
        λ a s e. delete_pool_change-IsStoreValid std id w.store e h.resources
  run-IsWellFormed call (no_rule id) w h =
      commit_change-IsWellFormed std call w _ h
        λ a s e. delete_rule_change-IsStoreValid std id w.store e h.resources
  run-IsWellFormed call (no_route id) w h = delete_compatibility_route-Good std call id w h
  run-IsWellFormed call (new_pool p) w h = returning-Good std tt _ (
      commit_change-IsWellFormed std call w _ h
        λ a s e. add_pool_change-IsStoreValid std call.now p w.store e h.resources)
  run-IsWellFormed call (changed_pool p) w h = returning-Good std tt _ (
      commit_change-IsWellFormed std call w _ h
        λ a s e. replace_pool_change-IsStoreValid std call.now p w.store e h.resources)
  run-IsWellFormed call (new_rule r) w h = returning-Good std tt _ (
      commit_change-IsWellFormed std call w _ h
        λ a s e. add_rule_change-IsStoreValid std call.now r w.store e h.resources)
  run-IsWellFormed call (changed_rule r) w h = returning-Good std tt _ (
      commit_change-IsWellFormed std call w _ h
        λ a s e. replace_rule_change-IsStoreValid std call.now r w.store e h.resources)
  run-IsWellFormed call (new_route r) w h =
      returning-Good std tt _ (add_compatibility_route-Good std call r w h)
  run-IsWellFormed call (changed_route r) w h =
      returning-Good std tt _ (replace_compatibility_route-Good std call r w h)
  run-IsWellFormed call (all_resources resources) w h =
      replace_resources-Good std call resources w h
  run-IsWellFormed call (staged_resources resources) w h = stage_resources-Good std resources w h
  run-IsWellFormed call (statuses list) w h = set_runtime_status-IsWellFormed std list w h
  run-IsWellFormed call (applied snapshot) w h = mark_applied-Good std call snapshot w h
  run-IsWellFormed call persist w h = persist_staged-Good std call w h
  run-IsWellFormed call reload w h = load-IsWellFormed std call w h

  new_store-IsWellFormed : (path : Text) → IsWellFormed std (new_store path)
  unfolding new_store rebuild_routes
  new_store-IsWellFormed path = record {
    resources = record {
      listeners = tt;
      listeners_apart = tt;
      pools = tt;
      pools_apart = tt;
      rules = tt;
      rules_apart = tt;
    };
    compiled = refl;
  }

  run_all-Good :
      (calls : List (Call × Method)) (w : World) → Good std w → Good std (run_all std calls w)
  unfolding run_all
  run_all-Good [] w h = h
  run_all-Good ((call, method) ∷ calls) w h =
      run_all-Good calls (run std call method w).1 (run-IsWellFormed call method w h)

  -- From a new store, whatever is called in whatever order, whatever the file holds and whatever
  -- writes fail, the store is well-formed: IDs, endpoints, folded pool names and the paths of a
  -- listener are unique, every rule names a listener and a pool that are there, and the routes are
  -- what the resources compile to.
  pub run_all-IsWellFormed :
      (calls : List (Call × Method)) (path : Text) (disk : Disk Content)
      → IsWellFormed std (run_all std calls (record { store = new_store path; disk = disk })).store
  run_all-IsWellFormed calls path disk = run_all-Good calls _ (new_store-IsWellFormed path)
