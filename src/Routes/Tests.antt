-- ===== src/Routes/Tests.antt =====
-- Runs of the store on small inputs, and its theorems at such inputs.
mod Effects
mod Rendering
use caddy_reverse_proxy.Common.{
  ℕ, ◌+◌, ◌%◌, ◌^◌, ◌≡◌, ◌≢◌, ◌≤◌, refl, true, false, Option, none, some, List, [], ◌∷◌, eqb, ok,
  err, if◌then◌else◌, any, is_some, All, delete_first,
}
use caddy_reverse_proxy.Common.Int.{pos, eq_ℤ}
use caddy_reverse_proxy.Text.{
  Text, codes, drop, ◌==◌, trim_space, trim_suffix_dot, to_lower, contains, has_prefix,
  contains_any, itoa, last_or, lower, split, trim, trim_left, trim_right,
}
use caddy_reverse_proxy.Model.{
  Listener, BackendPool, RouteSecurityConfig, RoutingRule, RouteConfig, RouteHealthStatus,
}
use caddy_reverse_proxy.Persistence.{sync, Disk, write_json}
use caddy_reverse_proxy.Routes.Std.{Url, Std, Call}
use caddy_reverse_proxy.Routes.Store.{
  Content, payload, World, new_store, file_of_store, desired_snapshot, clear_error,
  marshal_resources, restore_locked, save_locked, snapshot_locked, write_store, ResourceSet,
  resource_set_version,
}
use caddy_reverse_proxy.Routes.Commit.{
  mark_applied, returning, commit_change, commit_locked, commit_rebuilt, or_restore, persist_staged,
}
use caddy_reverse_proxy.Routes.Errors.{save_failed}
use caddy_reverse_proxy.Routes.Operations.{
  add_listener, add_listener_change, delete_listener, delete_listener_change, check_unused,
  or_not_found, stage_resources, stage_normalized, stage_rebuilt, with_resources,
  normalize_resources_locked,
}
use caddy_reverse_proxy.Routes.Runtime.{set_runtime_status}
use caddy_reverse_proxy.Routes.Listeners.{
  add_listener_locked, validate_listener, complete_listener, normalize_listener, check_new_listener,
  same_listener, listener_url, find_listener, normalize_listeners, delete_listener_by_id,
}
use caddy_reverse_proxy.Routes.Normalize.{
  or_default, normalize_host, default_port, host_port, id_or_next, source_or,
}
use caddy_reverse_proxy.Routes.Validate.{
  validate_route_host, label_characters, valid_label, validate_labels,
}
use caddy_reverse_proxy.Routes.Compile.{rebuild_routes}
use caddy_reverse_proxy.Routes.Invariant.{IsWellFormed}
use caddy_reverse_proxy.Routes.Calls.{
  Method, new_listener, new_pool, new_rule, new_route, no_listener, run, run_all,
}
use caddy_reverse_proxy.Routes.Calls.Atomicity.{run-eq-err}
use caddy_reverse_proxy.Routes.Calls.Durability.{mark_applied-ok}
use caddy_reverse_proxy.Routes.Calls.Success.{is_change, run-revision, run-target}
use caddy_reverse_proxy.Routes.Calls.Safety.{run-IsWellFormed, run_all-IsWellFormed}
use caddy_reverse_proxy.Routes.Invariant.Compiled.{Matches, IsRouteOf, IsWellFormed-Matches}
use caddy_reverse_proxy.Routes.Calls.Lookups.{add_listener-find, delete_listener-find}
use caddy_reverse_proxy.Routes.Calls.Staging.{
  set_runtime_status-file_of_store, persist_staged-stage_resources,
}
use caddy_reverse_proxy.Routes.Pools.{normalize_pools}
use caddy_reverse_proxy.Routes.Rules.{normalize_rules, references_listener}
use caddy_reverse_proxy.Routes.Samples.{
  small_url, small_std, quiet, full_disk, shop_listener, shop_pool, shop_rule, shop_route,
  empty_disk, start,
}

abbrev script : List (Call × Method)
script =
    (quiet, new_listener shop_listener)
    ∷ (quiet, new_pool shop_pool)
    ∷ (quiet, new_rule shop_rule)
    ∷ (full_disk, new_listener (record shop_listener { id = codes "l2"; port = pos 8443 }))
    ∷ (quiet, new_route shop_route)
    ∷ (quiet, no_listener (codes "l1"))
    ∷ []

machinery : Unit {0}
unfolding run_all run new_store small_url returning add_listener commit_change add_listener_change
    add_listener_locked validate_listener ◌==◌ complete_listener or_default normalize_listener
    trim_space normalize_host trim_suffix_dot to_lower validate_route_host contains has_prefix any
    write_json rebuild_routes check_new_listener same_listener listener_url default_port host_port
    id_or_next source_or clear_error commit_locked commit_rebuilt file_of_store marshal_resources
    or_restore restore_locked save_locked snapshot_locked write_store label_characters valid_label
    validate_labels contains_any itoa last_or lower split trim trim_left trim_right delete_listener
    delete_listener_change check_unused or_not_found delete_listener_by_id references_listener
    delete_first stage_normalized stage_rebuilt with_resources normalize_resources_locked
    normalize_listeners normalize_pools normalize_rules find_listener
machinery = tt

final : World
unfolding machinery
final = run_all small_std script start

run_all-IsWellFormed_example : IsWellFormed small_std (run_all small_std script start).store
run_all-IsWellFormed_example =
    run_all-IsWellFormed small_std script (codes "/routes.json") empty_disk

ran-IsWellFormed : IsWellFormed small_std (run_all small_std script start).store
ran-IsWellFormed = run_all-IsWellFormed small_std script (codes "/routes.json") empty_disk

run-IsWellFormed_example :
    IsWellFormed small_std
      (run small_std quiet (new_listener shop_listener) (run_all small_std script start)).1.store
run-IsWellFormed_example =
    run-IsWellFormed small_std quiet (new_listener shop_listener) (run_all small_std script start)
      ran-IsWellFormed

failed : (run small_std full_disk (new_listener shop_listener) start).0 ≡ err (save_failed sync)
unfolding machinery
failed = refl

run-eq-err_example :
    ((run small_std full_disk (new_listener shop_listener) start).1.store ≡ start.store)
    × ((run small_std full_disk (new_listener shop_listener) start).1.disk.target ≡ none)
run-eq-err_example =
    run-eq-err small_std full_disk (new_listener shop_listener) start (save_failed sync) failed

added : (run small_std quiet (new_listener shop_listener) start).0 ≡ ok tt
unfolding machinery
added = refl

is_change_new : is_change (new_listener shop_listener) ≡ true
unfolding is_change
is_change_new = refl

run-revision_example :
    (run small_std quiet (new_listener shop_listener) start).1.store.revision
    ≡ (start.store.revision + 1) % 2 ^ 64
run-revision_example =
    run-revision small_std quiet (new_listener shop_listener) start is_change_new added

unstaged : (run small_std quiet (new_listener shop_listener) start).1.store.staged ≡ false
unfolding machinery
unstaged = refl

named : (run small_std quiet (new_listener shop_listener) start).1.store.path ≢ []
unfolding machinery
named h = cc

run-target_example :
    (run small_std quiet (new_listener shop_listener) start).1.disk.target
    ≡ some
        (payload (file_of_store (run small_std quiet (new_listener shop_listener) start).1.store))
run-target_example =
    run-target small_std quiet (new_listener shop_listener) start is_change_new added unstaged named

abbrev mark : World
mark = (run small_std quiet (new_listener shop_listener) start).1

marked : (mark_applied quiet (desired_snapshot mark.store) mark).0 ≡ ok tt
unfolding machinery mark_applied desired_snapshot
marked = refl

mark_applied-ok_example :
    (mark.store.applied.revision ≤ (desired_snapshot mark.store).revision)
    × ((desired_snapshot mark.store).revision ≤ mark.store.revision)
    × ((mark_applied quiet (desired_snapshot mark.store) mark).1.store
        ≡ record mark.store { applied = desired_snapshot mark.store; staged = false })
    × ((mark_applied quiet (desired_snapshot mark.store) mark).1.disk.target
        ≡ some (
            payload
              (file_of_store (mark_applied quiet (desired_snapshot mark.store) mark).1.store)))
mark_applied-ok_example = mark_applied-ok quiet (desired_snapshot mark.store) mark named marked
