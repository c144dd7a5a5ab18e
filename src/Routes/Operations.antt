-- ===== src/Routes/Operations.antt =====
-- backend/internal/routes/resources.go: the methods on listeners, pools, rules and whole resource
-- sets. A change is a function of the store; `commit_change` rebuilds, counts and saves.
use caddy_reverse_proxy.Common.{
  ℕ, Bool, true, false, Option, none, some, List, [], ◌∷◌, map, Result, ok, err, ◌>>=◌, ◌>>◌,
  fail_if, if◌then◌else◌, replace_first,
}
use caddy_reverse_proxy.Common.Int.{eq_ℤ}
use caddy_reverse_proxy.Text.{Text, ◌==◌}
use caddy_reverse_proxy.Model.{Listener, BackendPool, RoutingRule, RouteConfig}
use caddy_reverse_proxy.Routes.Errors.{
  Error, listener, pool, rule, id_required, not_found, used_by, unsupported_version,
}
use caddy_reverse_proxy.Routes.Std.{Std, Call}
use caddy_reverse_proxy.Routes.Listeners.{
  normalize_listener, validate_listener, listener_has_id, delete_listener_by_id,
  add_listener_locked, check_replaced_listener, normalize_listeners,
}
use caddy_reverse_proxy.Routes.Pools.{
  normalize_backend_pool, validate_backend_pool, pool_has_id, delete_backend_pool_by_id,
  add_backend_pool_locked, check_replaced_pool, normalize_pools,
}
use caddy_reverse_proxy.Routes.Rules.{
  normalize_routing_rule, rule_has_id, find_routing_rule, delete_routing_rule_by_id,
  add_routing_rule_locked, validate_routing_rule, normalize_rules, references_listener,
  references_pool,
}
use caddy_reverse_proxy.Routes.Store.{
  ResourceSet, resource_set_version, Store, World, Outcome, set_store, clear_error, snapshot_locked,
  restore_locked,
}
use caddy_reverse_proxy.Routes.Commit.{
  commit_change, commit_or_restore, rebuild_store, next_revision,
}

-- `if !found { return not found }`
unfoldable pub or_not_found {ℓ} : {A : Type ℓ} → Error → Option A → Result Error A
or_not_found e none = err e
or_not_found e (some a) = ok a

abbrev pub put_listeners : Store → List Listener → Store
put_listeners s listeners = record s { listeners = listeners }

abbrev pub put_pools : Store → List BackendPool → Store
put_pools s pools = record s { backend_pools = pools }

abbrev pub put_rules : Store → List RoutingRule → Store
put_rules s rules = record s { routing_rules = rules }

unfoldable pub add_listener_change : (ℕ → ℕ) → Listener → Store → Result Error (Listener × Store)
add_listener_change now l s = do
  added ← add_listener_locked now l s.listeners
  ok (added.0, put_listeners s added.1)

unfoldable pub replace_listener_change :
    (ℕ → ℕ) → Listener → Store → Result Error (Listener × Store)
replace_listener_change now raw s = do
  fail_if (raw.id == []) (id_required listener)
  let l = normalize_listener raw
  validate_listener l
  check_replaced_listener l s.listeners
  let updated = record l { last_updated = now 0 }
  listeners ←
      or_not_found (not_found listener l.id)
        (replace_first (listener_has_id l.id) updated s.listeners)
  ok (updated, put_listeners s listeners)

-- The loop over the rules of DeleteListener and DeleteBackendPool.
unfoldable pub check_unused :
    (RoutingRule → Bool) → (Text → Error) → List RoutingRule → Result Error (Unit {0})
check_unused uses used [] = ok tt
check_unused uses used (r ∷ rules) = do fail_if (uses r) (used r.id); check_unused uses used rules

unfoldable pub delete_listener_change : Text → Store → Result Error (Unit {0} × Store)
delete_listener_change id s = do
  check_unused (references_listener id) (used_by listener id) s.routing_rules
  listeners ← or_not_found (not_found listener id) (delete_listener_by_id s.listeners id)
  ok (tt, put_listeners s listeners)

unfoldable pub delete_pool_change : Text → Store → Result Error (Unit {0} × Store)
delete_pool_change id s = do
  check_unused (references_pool id) (used_by pool id) s.routing_rules
  pools ← or_not_found (not_found pool id) (delete_backend_pool_by_id s.backend_pools id)
  ok (tt, put_pools s pools)

unfoldable pub delete_rule_change : Text → Store → Result Error (Unit {0} × Store)
delete_rule_change id s = do
  rules ← or_not_found (not_found rule id) (delete_routing_rule_by_id s.routing_rules id)
  ok (tt, put_rules s rules)

-- The copies that ReplaceResources and StageResources start from.
unfoldable pub with_resources : Bool → ResourceSet → Store → Store
with_resources staged resources s = record s {
  staged = staged;
  listeners = resources.listeners;
  backend_pools = resources.backend_pools;
  routing_rules = map clear_error resources.routing_rules;
}

unfoldable pub normalized_or : Store → Result Error Store → Result Error (Unit {0}) × Store
normalized_or s (ok normalized) = (ok tt, normalized)
normalized_or s (err e) = (err e, s)

-- StageResources after its normalisation: it rebuilds and counts, and does not save.
unfoldable pub stage_rebuilt : World → Store → Result Error (List RouteConfig) → Outcome (Unit {0})
stage_rebuilt w s (err e) = (err e, set_store w (restore_locked (snapshot_locked w.store) s))
stage_rebuilt w s (ok routes) =
    (ok tt, set_store w (record s { routes = routes; revision = next_revision s.revision }))

module _ (std : Std) where
  unfoldable pub add_pool_change :
      (ℕ → ℕ) → BackendPool → Store → Result Error (BackendPool × Store)
  add_pool_change now p s = do
    added ← add_backend_pool_locked std now p s.backend_pools
    ok (added.0, put_pools s added.1)

  unfoldable pub replace_pool_change :
      (ℕ → ℕ) → BackendPool → Store → Result Error (BackendPool × Store)
  replace_pool_change now raw s = do
    fail_if (raw.id == []) (id_required pool)
    let p = normalize_backend_pool raw
    validate_backend_pool std p
    check_replaced_pool p s.backend_pools
    let updated = record p { last_updated = now 0 }
    pools ←
        or_not_found (not_found pool p.id)
          (replace_first (pool_has_id p.id) updated s.backend_pools)
    ok (updated, put_pools s pools)

  unfoldable pub add_rule_change :
      (ℕ → ℕ) → RoutingRule → Store → Result Error (RoutingRule × Store)
  add_rule_change now r s = do
    added ← add_routing_rule_locked std s.listeners s.backend_pools now r s.routing_rules
    ok (added.0, put_rules s added.1)

  -- The rule that is written keeps the last error of the one that it replaces.
  unfoldable pub replace_rule_change :
      (ℕ → ℕ) → RoutingRule → Store → Result Error (RoutingRule × Store)
  replace_rule_change now raw s = do
    fail_if (raw.id == []) (id_required rule)
    let r = normalize_routing_rule raw
    validate_routing_rule std s.listeners s.backend_pools r r.id s.routing_rules
    old ← or_not_found (not_found rule r.id) (find_routing_rule s.routing_rules r.id)
    let updated = record r { last_error = old.last_error; last_updated = now 0 }
    rules ←
        or_not_found (not_found rule r.id)
          (replace_first (rule_has_id r.id) updated s.routing_rules)
    ok (updated, put_rules s rules)

  -- s.normalizeResourcesLocked. Every caller restores its snapshot when it fails, so the lists that
  -- a failed pass has rewritten in part are not kept here.
  unfoldable pub normalize_resources_locked : Store → Result Error Store
  normalize_resources_locked s = do
    listeners ← normalize_listeners [] s.listeners
    pools ← normalize_pools std [] s.backend_pools
    rules ← normalize_rules std listeners pools [] s.routing_rules
    ok (record s { listeners = listeners; backend_pools = pools; routing_rules = rules })

  unfoldable pub add_listener : Call → Listener → World → Outcome Listener
  add_listener call l w = commit_change std call w (add_listener_change call.now l w.store)

  unfoldable pub replace_listener : Call → Listener → World → Outcome Listener
  replace_listener call l w = commit_change std call w (replace_listener_change call.now l w.store)

  unfoldable pub delete_listener : Call → Text → World → Outcome (Unit {0})
  delete_listener call id w = commit_change std call w (delete_listener_change id w.store)

  unfoldable pub add_backend_pool : Call → BackendPool → World → Outcome BackendPool
  add_backend_pool call p w = commit_change std call w (add_pool_change call.now p w.store)

  unfoldable pub replace_backend_pool : Call → BackendPool → World → Outcome BackendPool
  replace_backend_pool call p w = commit_change std call w (replace_pool_change call.now p w.store)

  unfoldable pub delete_backend_pool : Call → Text → World → Outcome (Unit {0})
  delete_backend_pool call id w = commit_change std call w (delete_pool_change id w.store)

  unfoldable pub add_routing_rule : Call → RoutingRule → World → Outcome RoutingRule
  add_routing_rule call r w = commit_change std call w (add_rule_change call.now r w.store)

  unfoldable pub replace_routing_rule : Call → RoutingRule → World → Outcome RoutingRule
  replace_routing_rule call r w = commit_change std call w (replace_rule_change call.now r w.store)

  unfoldable pub delete_routing_rule : Call → Text → World → Outcome (Unit {0})
  delete_routing_rule call id w = commit_change std call w (delete_rule_change id w.store)

  unfoldable pub replace_resources : Call → ResourceSet → World → Outcome (Unit {0})
  replace_resources call resources w =
      if eq_ℤ resources.version resource_set_version
      then (let s = with_resources false resources w.store in
          commit_or_restore std call w (normalized_or s (normalize_resources_locked s)))
      else (err (unsupported_version resources.version), w)

  unfoldable pub stage_normalized : World → Store → Result Error Store → Outcome (Unit {0})
  stage_normalized w s (err e) = (err e, set_store w (restore_locked (snapshot_locked w.store) s))
  stage_normalized w s (ok normalized) = stage_rebuilt w normalized (rebuild_store std normalized)

  unfoldable pub stage_resources : ResourceSet → World → Outcome (Unit {0})
  stage_resources resources w =
      if eq_ℤ resources.version resource_set_version
      then (let s = with_resources true resources w.store in
          stage_normalized w s (normalize_resources_locked s))
      else (err (unsupported_version resources.version), w)
