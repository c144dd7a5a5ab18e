-- ===== src/Routes/Compat/Pruning.antt =====
-- backend/internal/routes/resources.go: the removal of a compatibility rule and of the resources that
-- no rule names any more.
use caddy_reverse_proxy.Common.{Option, none, some, if◌then◌else◌, any}
use caddy_reverse_proxy.Text.{Text, codes, ◌==◌}
use caddy_reverse_proxy.Model.{Listener, BackendPool, RoutingRule}
use caddy_reverse_proxy.Routes.Listeners.{find_listener, delete_listener_by_id}
use caddy_reverse_proxy.Routes.Pools.{find_backend_pool, delete_backend_pool_by_id}
use caddy_reverse_proxy.Routes.Rules.{
  delete_routing_rule_by_id, references_listener, references_pool,
}
use caddy_reverse_proxy.Routes.Store.{Store}
use caddy_reverse_proxy.Routes.Operations.{put_listeners, put_pools, put_rules}

abbrev pub or_kept {ℓ} : {A : Type ℓ} → A → Option A → A
or_kept a none = a
or_kept a (some b) = b

-- `if pool != nil && pool.Source == "compatibility" { deleteBackendPoolByID }`
unfoldable pub prune_found_pool : Text → Store → Option BackendPool → Store
prune_found_pool id s none = s
prune_found_pool id s (some p) =
    if p.source == codes "compatibility"
    then put_pools s (or_kept s.backend_pools (delete_backend_pool_by_id s.backend_pools id))
    else s

-- `if !resourceReferencedByRule(…)`
unfoldable pub prune_pool : Text → Store → Store
unfolding prune_found_pool
prune_pool id s =
    if any (references_pool id) s.routing_rules
    then s
    else prune_found_pool id s (find_backend_pool s.backend_pools id)

unfoldable pub prune_found_listener : Text → Store → Option Listener → Store
prune_found_listener id s none = s
prune_found_listener id s (some l) =
    if l.source == codes "compatibility"
    then put_listeners s (or_kept s.listeners (delete_listener_by_id s.listeners id))
    else s

unfoldable pub prune_listener : Text → Store → Store
unfolding prune_found_listener
prune_listener id s =
    if any (references_listener id) s.routing_rules
    then s
    else prune_found_listener id s (find_listener s.listeners id)

-- s.pruneCompatibilityResourcesLocked
unfoldable pub prune_resources : RoutingRule → Store → Store
prune_resources r s = prune_listener r.listener_id (prune_pool r.backend_pool_id s)

-- deleteRoutingRuleByID, its result dropped, and the pruning after it
unfoldable pub remove_rule : RoutingRule → Text → Store → Store
remove_rule old id s =
    prune_resources old
      (put_rules s (or_kept s.routing_rules (delete_routing_rule_by_id s.routing_rules id)))
