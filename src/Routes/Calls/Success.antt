-- ===== src/Routes/Calls/Success.antt =====
-- What a successful method that changes resources has done: it has counted one revision, and the
-- file holds the store.
use caddy_reverse_proxy.Common.{
  ◌≡◌, ◌≢◌, refl, arith, ◌∙◌, ◌+◌, ◌%◌, ◌^◌, List, [], Result, some, ok, err, Bool, true, false,
}
use caddy_reverse_proxy.Common.Int.{eq_ℤ}
use caddy_reverse_proxy.Model.{RouteConfig}
use caddy_reverse_proxy.Routes.Errors.{Error}
use caddy_reverse_proxy.Routes.Std.{Std, Call}
use caddy_reverse_proxy.Routes.Store.{
  ResourceSet, resource_set_version, payload, file_of_store, Store, World,
}
use caddy_reverse_proxy.Routes.Commit.{commit_or_restore, rebuild_store}
use caddy_reverse_proxy.Routes.Operations.{
  with_resources, normalized_or, normalize_resources_locked, replace_resources, stage_resources,
  stage_normalized, stage_rebuilt, add_listener, replace_listener, delete_listener,
  add_backend_pool, replace_backend_pool, delete_backend_pool, add_routing_rule,
  replace_routing_rule, delete_routing_rule,
}
use caddy_reverse_proxy.Routes.Compat.{
  migrate_route_locked, add_compatibility_route, replace_compatibility_route,
  delete_compatibility_route,
}
use caddy_reverse_proxy.Routes.Compat.Pruning.{remove_rule}
use caddy_reverse_proxy.Routes.Invariant.Compat.{migrate_route_locked-Keeps}
use caddy_reverse_proxy.Routes.Calls.{
  Method, run, new_listener, changed_listener, no_listener, no_pool, no_rule, no_route, new_pool,
  changed_pool, new_rule, changed_rule, new_route, changed_route, all_resources, staged_resources,
  statuses, applied, persist, reload,
}
use caddy_reverse_proxy.Routes.Calls.Paths.{
  add_listener_change-header, replace_listener_change-header, delete_listener_change-header,
  delete_pool_change-header, delete_rule_change-header, add_pool_change-header,
  replace_pool_change-header, add_rule_change-header, replace_rule_change-header,
  normalize_resources_locked-header, AtRevision, AtRevision-IsStable, remove_rule-header,
}
use caddy_reverse_proxy.Routes.Calls.Durability.{
  IsCommitted-err, IsCommitted-if, checked-IsCommitted, returning-IsCommitted,
  commit_change-IsCommitted, commit_or_restore-IsCommitted, staged-IsCommitted,
}
use caddy_reverse_proxy.Routes.Calls.Saves.{IsCommitted}

-- The methods that change the resources.
unfoldable pub is_change : Method → Bool
is_change (statuses list) = false
is_change (applied snapshot) = false
is_change persist = false
is_change reload = false
is_change (new_listener l) = true
is_change (changed_listener l) = true
is_change (no_listener id) = true
is_change (no_pool id) = true
is_change (no_rule id) = true
is_change (no_route id) = true
is_change (new_pool p) = true
is_change (changed_pool p) = true
is_change (new_rule r) = true
is_change (changed_rule r) = true
is_change (new_route r) = true
is_change (changed_route r) = true
is_change (all_resources resources) = true
is_change (staged_resources resources) = true

module _ (std : Std) where
  migrated-IsCommitted :
      (call : Call) (r : RouteConfig) (s : Store) (w : World)
      → s.revision ≡ w.store.revision
      → IsCommitted w.store.revision
          (commit_or_restore std call w (migrate_route_locked std call.now r s))
  migrated-IsCommitted call r s w h =
      commit_or_restore-IsCommitted std call w (migrate_route_locked std call.now r s) (
        (migrate_route_locked-Keeps std (AtRevision std w.store.revision)
            (AtRevision-IsStable std w.store.revision) call.now r).at
          s h)

  normalized_or-revision :
      (s : Store) (r : Result Error Store)
      → normalize_resources_locked std s ≡ r
      → (normalized_or s r).1.revision ≡ s.revision
  unfolding normalized_or
  normalized_or-revision s (ok s') e = (normalize_resources_locked-header std s e).1
  normalized_or-revision s (err x) e = refl

  replace_resources-IsCommitted :
      (call : Call) (resources : ResourceSet) (w : World)
      → IsCommitted w.store.revision (replace_resources std call resources w)
  unfolding replace_resources with_resources
  replace_resources-IsCommitted call resources w =
      let s = with_resources false resources w.store in
      IsCommitted-if w.store.revision (eq_ℤ resources.version resource_set_version) _ _
        (λ same.
          commit_or_restore-IsCommitted std call w _
            (normalized_or-revision s (normalize_resources_locked std s) refl))
        λ differ. IsCommitted-err w.store.revision _ w

  normalize_resources_locked-staged :
      (s : Store) {s' : Store} → normalize_resources_locked std s ≡ ok s' → s'.staged ≡ s.staged
  unfolding normalize_resources_locked
  normalize_resources_locked-staged s h = ground arith

  stage_rebuilt-IsCommitted :
      (w : World) (s : Store) (r : Result Error (List RouteConfig))
      → s.staged ≡ true
      → s.revision ≡ w.store.revision
      → IsCommitted w.store.revision (stage_rebuilt w s r)
  unfolding stage_rebuilt
  stage_rebuilt-IsCommitted w s (ok routes) staged h =
      staged-IsCommitted w.store.revision _ tt staged (rw h refl)
  stage_rebuilt-IsCommitted w s (err e) staged h = IsCommitted-err w.store.revision e _

  stage_normalized-IsCommitted :
      (w : World) (s : Store) (r : Result Error Store)
      → normalize_resources_locked std s ≡ r
      → s.staged ≡ true
      → s.revision ≡ w.store.revision
      → IsCommitted w.store.revision (stage_normalized std w s r)
  unfolding stage_normalized
  stage_normalized-IsCommitted w s (ok s') e staged h =
      stage_rebuilt-IsCommitted w s' (rebuild_store std s')
        (normalize_resources_locked-staged s e ∙ staged)
        ((normalize_resources_locked-header std s e).1 ∙ h)
  stage_normalized-IsCommitted w s (err x) e staged h = IsCommitted-err w.store.revision x _

  stage_resources-IsCommitted :
      (resources : ResourceSet) (w : World)
      → IsCommitted w.store.revision (stage_resources std resources w)
  unfolding stage_resources with_resources
  stage_resources-IsCommitted resources w =
      let s = with_resources true resources w.store in
      IsCommitted-if w.store.revision (eq_ℤ resources.version resource_set_version) _ _
        (λ same. stage_normalized-IsCommitted w s (normalize_resources_locked std s) refl refl refl)
        λ differ. IsCommitted-err w.store.revision _ w

  run-IsCommitted :
      (call : Call) (method : Method) (w : World)
      → is_change method ≡ true
      → IsCommitted w.store.revision (run std call method w)
  unfolding is_change run add_listener replace_listener delete_listener add_backend_pool
      replace_backend_pool delete_backend_pool add_routing_rule replace_routing_rule
      delete_routing_rule add_compatibility_route replace_compatibility_route
      delete_compatibility_route
  run-IsCommitted call (new_listener l) w h = returning-IsCommitted _ tt _ (
      commit_change-IsCommitted std call w _
        λ a s e. (add_listener_change-header call.now l w.store e).1)
  run-IsCommitted call (changed_listener l) w h = returning-IsCommitted _ tt _ (
      commit_change-IsCommitted std call w _
        λ a s e. (replace_listener_change-header call.now l w.store e).1)
  run-IsCommitted call (no_listener id) w h =
      commit_change-IsCommitted std call w _ λ a s e. (delete_listener_change-header id w.store e).1
  run-IsCommitted call (no_pool id) w h =
      commit_change-IsCommitted std call w _ λ a s e. (delete_pool_change-header id w.store e).1
  run-IsCommitted call (no_rule id) w h =
      commit_change-IsCommitted std call w _ λ a s e. (delete_rule_change-header id w.store e).1
  run-IsCommitted call (no_route id) w h =
      checked-IsCommitted _ w _ _
        λ old. commit_or_restore-IsCommitted std call w _ (remove_rule-header std old id w.store).1
  run-IsCommitted call (new_pool p) w h = returning-IsCommitted _ tt _ (
      commit_change-IsCommitted std call w _
        λ a s e. (add_pool_change-header std call.now p w.store e).1)
  run-IsCommitted call (changed_pool p) w h = returning-IsCommitted _ tt _ (
      commit_change-IsCommitted std call w _
        λ a s e. (replace_pool_change-header std call.now p w.store e).1)
  run-IsCommitted call (new_rule r) w h = returning-IsCommitted _ tt _ (
      commit_change-IsCommitted std call w _
        λ a s e. (add_rule_change-header std call.now r w.store e).1)
  run-IsCommitted call (changed_rule r) w h = returning-IsCommitted _ tt _ (
      commit_change-IsCommitted std call w _
        λ a s e. (replace_rule_change-header std call.now r w.store e).1)
  run-IsCommitted call (new_route r) w h =
      returning-IsCommitted _ tt _
        (checked-IsCommitted _ w _ _ λ normal. migrated-IsCommitted call normal w.store w refl)
  run-IsCommitted call (changed_route r) w h = returning-IsCommitted _ tt _ (
      checked-IsCommitted _ w _ _ λ old.
        migrated-IsCommitted call _ (remove_rule old r.id w.store) w
          (remove_rule-header std old r.id w.store).1)
  run-IsCommitted call (all_resources resources) w h =
      replace_resources-IsCommitted call resources w
  run-IsCommitted call (staged_resources resources) w h = stage_resources-IsCommitted resources w
  run-IsCommitted call (statuses list) w h = absurd cc
  run-IsCommitted call (applied snapshot) w h = absurd cc
  run-IsCommitted call persist w h = absurd cc
  run-IsCommitted call reload w h = absurd cc

  -- A method that changes the resources and succeeds has counted exactly one revision, modulo 2^64.
  pub run-revision :
      (call : Call) (method : Method) (w : World)
      → is_change method ≡ true
      → (run std call method w).0 ≡ ok tt
      → (run std call method w).1.store.revision ≡ (w.store.revision + 1) % 2 ^ 64
  run-revision call method w change h = ((run-IsCommitted call method w change).at tt h).0

  -- A method that changes the resources and succeeds has written the store that it leaves, with the
  -- new revision, to the file, when the store has a file and no staged bundle waits to be written.
  pub run-target :
      (call : Call) (method : Method) (w : World)
      → is_change method ≡ true
      → (run std call method w).0 ≡ ok tt
      → (run std call method w).1.store.staged ≡ false
      → (run std call method w).1.store.path ≢ []
      → (run std call method w).1.disk.target
        ≡ some (payload (file_of_store (run std call method w).1.store))
  run-target call method w change h staged path =
      ((run-IsCommitted call method w change).at tt h).1 staged path
