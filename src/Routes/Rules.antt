-- ===== src/Routes/Rules.antt =====
-- backend/internal/routes/resources.go: routing rules.
use caddy_reverse_proxy.Common.{
  ℕ, Bool, not, ◌&&◌, ◌||◌, Option, List, [], ◌∷◌, ◌++◌, Result, ok, ◌>>◌, fail_if, wrap_err, find,
  delete_first, any, is_some,
}
use caddy_reverse_proxy.Common.Int.{lt_ℤ, gt_ℤ}
use caddy_reverse_proxy.Text.{Text, codes, ◌==◌, to_lower, trim_space, has_prefix, contains}
use caddy_reverse_proxy.Model.{Listener, BackendPool, RoutingRule}
use caddy_reverse_proxy.Routes.Errors.{
  Error, listener, pool, rule, name_required, id_required, not_found, backend_port,
  backend_protocol, invalid_path_prefix, path_exists, id_exists, invalid_resource,
}
use caddy_reverse_proxy.Routes.Std.{Std}
use caddy_reverse_proxy.Routes.Normalize.{
  or_default, id_or_next, normalize_path_prefix, normalize_security,
}
use caddy_reverse_proxy.Routes.Validate.Security.{validate_route_security}
use caddy_reverse_proxy.Routes.Listeners.{find_listener}
use caddy_reverse_proxy.Routes.Pools.{find_backend_pool}

unfoldable pub normalize_routing_rule : RoutingRule → RoutingRule
normalize_routing_rule r = record r {
  name = trim_space r.name;
  listener_id = trim_space r.listener_id;
  backend_pool_id = trim_space r.backend_pool_id;
  backend_protocol = or_default (to_lower (trim_space r.backend_protocol)) (codes "http");
  path_prefix = normalize_path_prefix r.path_prefix;
  health_path = trim_space r.health_path;
  exposure = or_default (to_lower (trim_space r.exposure)) (codes "public");
  source = to_lower (trim_space r.source);
  security = normalize_security r.security;
}

abbrev pub rule_has_id : Text → RoutingRule → Bool
rule_has_id id r = r.id == id

unfoldable pub find_routing_rule : List RoutingRule → Text → Option RoutingRule
find_routing_rule rules id = find (rule_has_id id) rules

unfoldable pub delete_routing_rule_by_id : List RoutingRule → Text → Option (List RoutingRule)
delete_routing_rule_by_id rules id = delete_first (rule_has_id id) rules

abbrev pub same_path : RoutingRule → RoutingRule → Bool
same_path a b = a.listener_id == b.listener_id && a.path_prefix == b.path_prefix

-- The last loop of validateRoutingRuleLocked.
unfoldable pub check_rule_paths : RoutingRule → Text → List RoutingRule → Result Error (Unit {0})
check_rule_paths r replacing [] = ok tt
check_rule_paths r replacing (existing ∷ rules) = do
  fail_if (not (existing.id == replacing) && same_path existing r)
      (path_exists r.listener_id r.path_prefix)
  check_rule_paths r replacing rules

-- The loop of addRoutingRuleLocked over the IDs in use.
unfoldable pub check_new_rule : RoutingRule → List RoutingRule → Result Error (Unit {0})
check_new_rule r [] = ok tt
check_new_rule r (existing ∷ rules) = do
  fail_if (existing.id == r.id) (id_exists rule r.id)
  check_new_rule r rules

unfoldable pub complete_rule : (ℕ → ℕ) → RoutingRule → RoutingRule
complete_rule now raw =
    let r = normalize_routing_rule raw in
    let id = id_or_next r.id (codes "rule") (now 6) in
    record r {
      id = id;
      name = or_default r.name id;
      source = or_default r.source (codes "explicit");
    }

-- resourceReferencedByRule
unfoldable pub references_listener : Text → RoutingRule → Bool
references_listener id r = r.listener_id == id

unfoldable pub references_pool : Text → RoutingRule → Bool
references_pool id r = r.backend_pool_id == id

module _ (std : Std) (listeners : List Listener) (pools : List BackendPool) where
  -- s.validateRoutingRuleLocked up to its loop
  unfoldable pub validate_rule_fields : RoutingRule → Result Error (Unit {0})
  validate_rule_fields r = do
    fail_if (r.name == []) (name_required rule)
    fail_if (r.listener_id == [] || not (is_some (find_listener listeners r.listener_id)))
        (not_found listener r.listener_id)
    fail_if (r.backend_pool_id == [] || not (is_some (find_backend_pool pools r.backend_pool_id)))
        (not_found pool r.backend_pool_id)
    fail_if (lt_ℤ r.backend_port 1 || gt_ℤ r.backend_port 65535) backend_port
    fail_if (not (r.backend_protocol == codes "http") && not (r.backend_protocol == codes "https"))
        backend_protocol
    fail_if
        (not (r.path_prefix == [])
          && (not (has_prefix r.path_prefix (codes "/")) || contains b'*' r.path_prefix))
        invalid_path_prefix
    validate_route_security std r.security

  unfoldable pub validate_routing_rule :
      RoutingRule → Text → List RoutingRule → Result Error (Unit {0})
  validate_routing_rule r replacing rules = do
    validate_rule_fields r
    check_rule_paths r replacing rules

  -- s.addRoutingRuleLocked
  unfoldable pub add_routing_rule_locked :
      (ℕ → ℕ) → RoutingRule → List RoutingRule → Result Error (RoutingRule × List RoutingRule)
  add_routing_rule_locked now raw rules = do
    let r = complete_rule now raw
    validate_routing_rule r [] rules
    check_new_rule r rules
    let created = record r { last_updated = now 7 }
    ok (created, rules ++ created ∷ [])

  -- The rule pass of normalizeResourcesLocked. `done` holds the rules before the index; those after
  -- it are not normalised yet.
  unfoldable pub normalize_rules :
      List RoutingRule → List RoutingRule → Result Error (List RoutingRule)
  normalize_rules done [] = ok done
  normalize_rules done (raw ∷ rest) = do
    let r = normalize_routing_rule raw
    fail_if (r.id == []) (id_required rule)
    fail_if (any (rule_has_id r.id) done) (id_exists rule r.id)
    wrap_err (invalid_resource rule r.id) (validate_routing_rule r r.id (done ++ r ∷ rest))
    normalize_rules (done ++ r ∷ []) rest
