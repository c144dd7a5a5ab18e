-- ===== src/Routes/Calls.antt =====
-- The methods of the store as one step: which method is called, with its arguments, what the
-- operating system does during the call, and the world that it leaves. A run is a list of calls.
pub mod AtomicCommits
pub mod Saves
pub mod Safety
pub mod Paths
pub mod Atomic
pub mod Atomicity
pub mod Durability
pub mod Success
pub mod Staging
pub mod Reload
pub mod Lookups
use caddy_reverse_proxy.Common.{Option, none, some, List, [], ◌∷◌, Result, ok, err}
use caddy_reverse_proxy.Text.{Text}
use caddy_reverse_proxy.Model.{Listener, BackendPool, RoutingRule, RouteConfig, RouteHealthStatus}
use caddy_reverse_proxy.Routes.Errors.{Error}
use caddy_reverse_proxy.Routes.Std.{Std, Call}
use caddy_reverse_proxy.Routes.Store.{ResourceSet, Snapshot, World, Outcome}
use caddy_reverse_proxy.Routes.Commit.{returning, mark_applied, persist_staged}
use caddy_reverse_proxy.Routes.Operations.{
  add_listener, replace_listener, delete_listener, add_backend_pool, replace_backend_pool,
  delete_backend_pool, add_routing_rule, replace_routing_rule, delete_routing_rule,
  replace_resources, stage_resources,
}
use caddy_reverse_proxy.Routes.Runtime.{set_runtime_status}
use caddy_reverse_proxy.Routes.Compat.{
  add_compatibility_route, replace_compatibility_route, delete_compatibility_route,
}
use caddy_reverse_proxy.Routes.Load.{load}

pub data Method : Type 0 where
  new_listener changed_listener : Listener → Method
  no_listener no_pool no_rule no_route : Text → Method
  new_pool changed_pool : BackendPool → Method
  new_rule changed_rule : RoutingRule → Method
  new_route changed_route : RouteConfig → Method
  all_resources staged_resources : ResourceSet → Method
  statuses : List RouteHealthStatus → Method
  applied : Snapshot → Method
  persist reload : Method

module _ (std : Std) where
  -- Whether the call succeeds, and the world after it.
  unfoldable pub run : Call → Method → World → Outcome (Unit {0})
  run call (new_listener l) w = returning tt (add_listener std call l w)
  run call (changed_listener l) w = returning tt (replace_listener std call l w)
  run call (no_listener id) w = delete_listener std call id w
  run call (no_pool id) w = delete_backend_pool std call id w
  run call (no_rule id) w = delete_routing_rule std call id w
  run call (no_route id) w = delete_compatibility_route std call id w
  run call (new_pool p) w = returning tt (add_backend_pool std call p w)
  run call (changed_pool p) w = returning tt (replace_backend_pool std call p w)
  run call (new_rule r) w = returning tt (add_routing_rule std call r w)
  run call (changed_rule r) w = returning tt (replace_routing_rule std call r w)
  run call (new_route r) w = returning tt (add_compatibility_route std call r w)
  run call (changed_route r) w = returning tt (replace_compatibility_route std call r w)
  run call (all_resources resources) w = replace_resources std call resources w
  run call (staged_resources resources) w = stage_resources std resources w
  run call (statuses list) w = (ok tt, set_runtime_status list w)
  run call (applied snapshot) w = mark_applied call snapshot w
  run call persist w = persist_staged call w
  run call reload w = load std call w

  unfoldable pub run_all : List (Call × Method) → World → World
  run_all [] w = w
  run_all ((call, method) ∷ calls) w = run_all calls (run call method w).1
