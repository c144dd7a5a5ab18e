-- ===== src/Routes/Tests/Effects.antt =====
-- The theorems on single methods, at small inputs.
use caddy_reverse_proxy.Common.{
  ◌≡◌, ◌≢◌, ◌≤◌, arith, refl, true, false, none, some, [], ◌∷◌, ok, is_some, All, map, List, Any,
  Distinct, ◌↔◌,
}
use caddy_reverse_proxy.Common.Int.{pos}
use caddy_reverse_proxy.Text.{codes, Text}
use caddy_reverse_proxy.Model.{Listener, RouteHealthStatus}
use caddy_reverse_proxy.Routes.Store.{
  payload, new_store, file_of_store, ResourceSet, resource_set_version, clear_error, set_store,
}
use caddy_reverse_proxy.Routes.Commit.{persist_staged}
use caddy_reverse_proxy.Routes.Operations.{
  add_listener, delete_listener, stage_resources, normalize_resources_locked,
}
use caddy_reverse_proxy.Routes.Runtime.{set_runtime_status}
use caddy_reverse_proxy.Routes.Listeners.{find_listener}
use caddy_reverse_proxy.Routes.Invariant.{IsWellFormed}
use caddy_reverse_proxy.Routes.Load.{load}
use caddy_reverse_proxy.Routes.Normalize.{normalize_path_prefix, unique_strings}
use caddy_reverse_proxy.Routes.Normalize.Unique.{unique_strings_lem}
use caddy_reverse_proxy.Routes.Normalize.Laws.{normalize_path_prefix-twice}
use caddy_reverse_proxy.Routes.Calls.Success.{run-target}
use caddy_reverse_proxy.Routes.Calls.Reload.{reloaded, IsSettled, load-file_of_store}
use caddy_reverse_proxy.Routes.Calls.{new_listener, run_all}
use caddy_reverse_proxy.Routes.Calls.Safety.{run-IsWellFormed, run_all-IsWellFormed}
use caddy_reverse_proxy.Routes.Invariant.Compiled.{Matches, IsRouteOf, IsWellFormed-Matches}
use caddy_reverse_proxy.Routes.Calls.Lookups.{add_listener-find, delete_listener-find}
use caddy_reverse_proxy.Routes.Calls.Staging.{
  set_runtime_status-file_of_store, persist_staged-stage_resources,
}
use caddy_reverse_proxy.Routes.Tests.{
  ran-IsWellFormed, script, machinery, mark, is_change_new, added, unstaged, named,
}
use caddy_reverse_proxy.Routes.Samples.{small_std, quiet, shop_listener, empty_disk, start}

IsWellFormed-Matches_example :
    Matches
      (IsRouteOf small_std (run_all small_std script start).store.backend_pools)
      (run_all small_std script start).store.routing_rules
      (run_all small_std script start).store.routes
IsWellFormed-Matches_example =
    IsWellFormed-Matches small_std (run_all small_std script start).store ran-IsWellFormed

abbrev added_listener : Listener
added_listener = record {
  id = codes "l1";
  name = codes "shop.example.com";
  hostname = codes "shop.example.com";
  port = pos 443;
  protocol = codes "https";
  source = codes "explicit";
  last_updated = 102;
}

answered : (add_listener small_std quiet shop_listener start).0 ≡ ok added_listener
unfolding machinery
answered = refl

add_listener-find_example :
    find_listener (add_listener small_std quiet shop_listener start).1.store.listeners (codes "l1")
    ≡ some added_listener
add_listener-find_example = add_listener-find small_std quiet shop_listener start answered

start-IsWellFormed : IsWellFormed small_std start.store
unfolding new_store run_all
start-IsWellFormed = run_all-IsWellFormed small_std [] (codes "/routes.json") empty_disk

deleted : (delete_listener small_std quiet (codes "l1") mark).0 ≡ ok tt
unfolding machinery
deleted = refl

delete_listener-find_example :
    (is_some (find_listener mark.store.listeners (codes "l1")) ≡ true)
    × All (λ r. r.listener_id ≢ codes "l1") mark.store.routing_rules
    × (find_listener
          (delete_listener small_std quiet (codes "l1") mark).1.store.listeners
          (codes "l1")
        ≡ none)
    × ((delete_listener small_std quiet (codes "l1") mark).1.store.backend_pools
        ≡ mark.store.backend_pools)
    × ((delete_listener small_std quiet (codes "l1") mark).1.store.routing_rules
        ≡ mark.store.routing_rules)
delete_listener-find_example =
    delete_listener-find small_std quiet (codes "l1") mark
      (run-IsWellFormed small_std quiet (new_listener shop_listener) start start-IsWellFormed)
      deleted

abbrev down : RouteHealthStatus
down = record {
  route_id = codes "r1";
  host = [];
  healthy = false;
  checked_at = 0;
  error = codes "timeout";
}

set_runtime_status-file_of_store_example :
    file_of_store (set_runtime_status (down ∷ []) (run_all small_std script start)).store
    ≡ file_of_store (run_all small_std script start).store
set_runtime_status-file_of_store_example =
    set_runtime_status-file_of_store (down ∷ []) (run_all small_std script start)

abbrev bundle : ResourceSet
bundle = record {
  version = resource_set_version;
  listeners = added_listener ∷ [];
  backend_pools = [];
  routing_rules = [];
}

staged_now : (stage_resources small_std bundle start).0 ≡ ok tt
unfolding machinery stage_resources
staged_now = refl

staged_path : (stage_resources small_std bundle start).1.store.path ≢ []
unfolding machinery stage_resources
staged_path h = cc

persisted : (persist_staged quiet (stage_resources small_std bundle start).1).0 ≡ ok tt
unfolding machinery stage_resources persist_staged
persisted = refl

persist_staged-stage_resources_example :
    ((stage_resources small_std bundle start).1.disk ≡ empty_disk)
    × ((persist_staged quiet (stage_resources small_std bundle start).1).1.store
        ≡ record (stage_resources small_std bundle start).1.store { staged = false })
    × ((persist_staged quiet (stage_resources small_std bundle start).1).1.disk.target
        ≡ some (payload (file_of_store (stage_resources small_std bundle start).1.store)))
persist_staged-stage_resources_example =
    persist_staged-stage_resources small_std quiet bundle start staged_now staged_path persisted

mark-saved : mark.disk.target ≡ some (payload (file_of_store mark.store))
mark-saved =
    run-target small_std quiet (new_listener shop_listener) start is_change_new added unstaged named

mark-clear : map clear_error mark.store.routing_rules ≡ mark.store.routing_rules
unfolding machinery
mark-clear = refl

mark-normal : normalize_resources_locked small_std mark.store ≡ ok mark.store
unfolding machinery
mark-normal = refl

mark-IsSettled : IsSettled small_std mark.store.applied
unfolding machinery
mark-IsSettled = record { version = refl; clear = refl; normal = refl; compiled = refl }

mark-behind : mark.store.applied.revision ≤ mark.store.revision
unfolding machinery
mark-behind = omega arith

load-file_of_store_example :
    load small_std quiet mark ≡ (ok tt, set_store mark (reloaded mark mark.store))
load-file_of_store_example =
    load-file_of_store small_std quiet mark mark.store named refl mark-saved
      (run-IsWellFormed small_std quiet (new_listener shop_listener) start start-IsWellFormed)
      mark-clear mark-normal mark-behind mark-IsSettled

normalize_path_prefix-twice_example :
    (normalize_path_prefix (codes "/a /") ≡ codes "/a ")
    × (normalize_path_prefix (codes "/a ") ≡ codes "/a")
    × (normalize_path_prefix (codes "/a") ≡ codes "/a")
normalize_path_prefix-twice_example = normalize_path_prefix-twice [] b'a' refl refl

abbrev three : List Text
three = codes "a" ∷ codes "b" ∷ codes "a" ∷ []

unique_strings_lem_example :
    Distinct ◌≢◌ (unique_strings three)
    × ((v : Text) → Any (λ t. v ≡ t) (unique_strings three) ↔ Any (λ t. v ≡ t) three)
unique_strings_lem_example = unique_strings_lem three
