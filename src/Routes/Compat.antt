-- ===== src/Routes/Compat.antt =====
-- backend/internal/routes/resources.go: the compatibility routes, each stored as a rule with a
-- listener and a pool of its own.
pub mod Upstreams
pub mod Pruning
pub mod Checks
use caddy_reverse_proxy.Common.{
  ℕ, ◌+◌, Bool, true, false, not, ◌&&◌, ◌||◌, Option, none, some, List, [], ◌∷◌, ◌++◌, map, Result,
  ok, err, fail_if, if◌then◌else◌, find, any, eqb,
}
use caddy_reverse_proxy.Common.Exec.{Exec, pure, lift, gets, change, modify, ◌>>=◌, ◌>>◌}
use caddy_reverse_proxy.Common.Int.{ℤ, pos, eq_ℤ}
use caddy_reverse_proxy.Text.{
  Text, codes, ◌==◌, to_lower, trim, trim_space, atoi, is_lower, is_digit,
}
use caddy_reverse_proxy.Model.{
  Listener, BackendTarget, BackendPool, RoutingRule, UpstreamTarget, RouteConfig,
}
use caddy_reverse_proxy.Routes.Errors.{
  Error, route, id_required, not_found, id_exists, route_exists, upstream_invalid, upstream_port,
  mixed_schemes, not_compiled,
}
use caddy_reverse_proxy.Routes.Std.{Std, Url, Call}
use caddy_reverse_proxy.Routes.Validate.{validate}
use caddy_reverse_proxy.Routes.Normalize.{
  normalize, source_or, or_default, default_port, next_id, id_or_next,
}
use caddy_reverse_proxy.Routes.Listeners.{
  find_listener, delete_listener_by_id, find_matching_listener,
}
use caddy_reverse_proxy.Routes.Pools.{find_backend_pool, delete_backend_pool_by_id}
use caddy_reverse_proxy.Routes.Rules.{
  find_routing_rule, delete_routing_rule_by_id, references_listener, references_pool,
}
use caddy_reverse_proxy.Routes.Store.{Store, World, Outcome}
use caddy_reverse_proxy.Routes.Commit.{checked, commit_or_restore, rebuild_store}
use caddy_reverse_proxy.Routes.Operations.{
  or_not_found, add_listener_change, add_pool_change, add_rule_change, put_listeners, put_pools,
  put_rules,
}
use Upstreams.{ParsedUpstreams, no_upstreams, compat_targets, read_upstreams}
use Pruning.{remove_rule}
use Checks.{addable_route, replaceable_rule}

abbrev is_hyphen : ℕ → Bool
is_hyphen c = eqb c b'-'

abbrev id_character : ℕ → ℕ
id_character c = if is_lower c || is_digit c || is_hyphen c then c else b'-'

unfoldable pub resource_id_part : Text → Text
resource_id_part value =
    or_default (trim is_hyphen (map id_character (to_lower (trim_space value)))) (codes "resource")

unfoldable pub unique_id : Text → List BackendPool → ℕ → Text
unique_id candidate pools now =
    if any (λ p. p.id == candidate) pools then next_id candidate now else candidate

unfoldable pub compat_listener : RouteConfig → Listener
compat_listener r =
    let protocol =
      or_default (to_lower (trim_space r.listener_protocol))
        (if r.https then codes "https" else codes "http") in
    record {
      id = [];
      name = r.host;
      hostname = r.host;
      port = (if eq_ℤ r.listener_port (pos 0) then default_port protocol else r.listener_port);
      protocol = protocol;
      source = codes "compatibility";
      last_updated = 0;
    }

unfoldable pub compat_pool : (ℕ → ℕ) → RouteConfig → List BackendPool → BackendPool
compat_pool now r pools = record {
  id = unique_id (codes "pool-" ++ resource_id_part r.id) pools (now 3);
  name = r.id ++ codes " backends";
  targets = [];
  source = codes "compatibility";
  last_updated = 0;
}

unfoldable pub compat_rule : RouteConfig → Listener → BackendPool → ParsedUpstreams → RoutingRule
compat_rule r l p u = record {
  id = r.id;
  name = r.id;
  listener_id = l.id;
  backend_pool_id = p.id;
  backend_port = u.port;
  backend_protocol = u.protocol;
  path_prefix = r.path_prefix;
  health_path = u.health_path;
  exposure = r.exposure;
  enabled = r.enabled;
  web_socket = r.web_socket;
  headers = r.headers;
  security = r.security;
  source = source_or r.source (codes "explicit");
  last_error = r.last_error;
  last_updated = 0;
}

unfoldable pub found_or_added : (ℕ → ℕ) → Listener → Option Listener → Exec Store Error Listener
found_or_added now candidate (some existing) s = (ok existing, s)
found_or_added now candidate none s = change (add_listener_change now candidate) s

unfoldable pub ensure_listener : (ℕ → ℕ) → Listener → Exec Store Error Listener
unfolding found_or_added
ensure_listener now candidate s =
    found_or_added now candidate (find_matching_listener s.listeners candidate) s

unfoldable pub keep_routes : Result Error (List RouteConfig) → Exec Store Error (Unit {0})
keep_routes (ok routes) s = (ok tt, record s { routes = routes })
keep_routes (err e) s = (err e, s)

abbrev or_not_compiled : Text → Option RouteConfig → Result Error RouteConfig
or_not_compiled id none = err (not_compiled id)
or_not_compiled id (some compiled) = ok compiled

module _ (std : Std) where
  -- s.rebuildRoutesLocked
  unfoldable pub rebuild_routes_locked : Exec Store Error (Unit {0})
  unfolding keep_routes
  rebuild_routes_locked s = keep_routes (rebuild_store std s) s

  unfoldable pub migrate_route_locked : (ℕ → ℕ) → RouteConfig → Exec Store Error RouteConfig
  migrate_route_locked now raw = do
    lift (validate std raw)
    let normal = normalize raw
    let r = record normal { id = id_or_next normal.id (codes "route") (now 0) }
    l ← ensure_listener now (compat_listener r)
    empty ← gets (λ (s : Store). compat_pool now r s.backend_pools)
    u ← lift (read_upstreams std r.upstreams no_upstreams)
    p ← change (add_pool_change std now (record empty { targets = compat_targets u }))
    change (add_rule_change std now (compat_rule r l p u))
    rebuild_routes_locked
    compiled ← gets (λ (s : Store). find (λ (c : RouteConfig). c.id == r.id) s.routes)
    lift (or_not_compiled r.id compiled)

  unfoldable pub add_compatibility_route : Call → RouteConfig → World → Outcome RouteConfig
  add_compatibility_route call raw w =
      checked w (addable_route std raw w.store)
        λ r. commit_or_restore std call w (migrate_route_locked call.now r w.store)

  unfoldable pub replace_compatibility_route : Call → RouteConfig → World → Outcome RouteConfig
  replace_compatibility_route call raw w = checked w (replaceable_rule std raw w.store) λ old.
      commit_or_restore std call w
        (migrate_route_locked call.now (normalize raw) (remove_rule old raw.id w.store))

  unfoldable pub delete_compatibility_route : Call → Text → World → Outcome (Unit {0})
  delete_compatibility_route call id w =
      checked w (or_not_found (not_found route id) (find_routing_rule w.store.routing_rules id))
        λ old. commit_or_restore std call w (ok tt, remove_rule old id w.store)
