-- ===== src/Routes/Calls/Atomicity.antt =====
-- A method that fails has changed neither the store nor its file.
use caddy_reverse_proxy.Common.{
  ◌≡◌, refl, ◌∙◌, [], Result, Option, none, some, ok, err, Bool, true, false,
}
use caddy_reverse_proxy.Common.Int.{eq_ℤ, gt_ℤ}
use caddy_reverse_proxy.Text.{◌==◌}
use caddy_reverse_proxy.Model.{RouteConfig}
use caddy_reverse_proxy.Routes.Errors.{
  Error, unsupported_version, save_migrated, malformed, read_failed,
}
use caddy_reverse_proxy.Routes.Std.{Std, Call}
use caddy_reverse_proxy.Routes.Store.{
  ResourceSet, Content, payload, Store, World, Outcome, set_store, save_locked,
  resource_set_version,
}
use caddy_reverse_proxy.Routes.Commit.{
  commit_or_restore, rebuild_store, persist_staged, finish_persist,
}
use caddy_reverse_proxy.Routes.Operations.{
  add_listener, replace_listener, delete_listener, add_backend_pool, replace_backend_pool,
  delete_backend_pool, add_routing_rule, replace_routing_rule, delete_routing_rule,
  replace_resources, stage_resources, with_resources, normalized_or, stage_normalized,
  normalize_resources_locked,
}
use caddy_reverse_proxy.Routes.Compat.{
  add_compatibility_route, replace_compatibility_route, delete_compatibility_route,
  migrate_route_locked,
}
use caddy_reverse_proxy.Routes.Compat.Pruning.{remove_rule}
use caddy_reverse_proxy.Routes.Load.{
  save_or_restore, finish_load, load_content, load_found, load, load_payload,
}
use caddy_reverse_proxy.Routes.Invariant.Compat.{migrate_route_locked-Keeps}
use caddy_reverse_proxy.Routes.Calls.{
  Method, new_listener, changed_listener, no_listener, no_pool, no_rule, no_route, new_pool,
  changed_pool, new_rule, changed_rule, new_route, changed_route, all_resources, staged_resources,
  statuses, applied, persist, reload, run,
}
use caddy_reverse_proxy.Routes.Calls.Atomic.{
  IsAtomic, IsAtomic-if, IsAtomic-ok, IsAtomic-err, save_locked-IsAtomic, save_locked-store,
  restored-IsAtomic, returning-IsAtomic, commit_change-IsAtomic, commit_or_restore-IsAtomic,
  checked-IsAtomic,
}
use caddy_reverse_proxy.Routes.Calls.Paths.{
  add_listener_change-header, replace_listener_change-header, delete_listener_change-header,
  add_pool_change-header, replace_pool_change-header, delete_pool_change-header,
  add_rule_change-header, replace_rule_change-header, delete_rule_change-header,
  normalize_resources_locked-header, At, At-IsStable, remove_rule-header, load_payload-path,
}
use caddy_reverse_proxy.Routes.Calls.AtomicCommits.{
  mark_applied-IsAtomic, finish_persist-IsAtomic, stage_rebuilt-IsAtomic,
}

persist_staged-IsAtomic : (call : Call) (w : World) → IsAtomic w (persist_staged call w)
unfolding persist_staged
persist_staged-IsAtomic call w =
    IsAtomic-if w w.store.staged (finish_persist (save_locked call w)) (ok tt, w)
      (finish_persist-IsAtomic w (save_locked call w) (save_locked-IsAtomic call w))
      (IsAtomic-ok w tt w)

module _ (std : Std) where
  stage_normalized-IsAtomic :
      (w : World) (s : Store) (r : Result Error Store)
      → s.path ≡ w.store.path
      → normalize_resources_locked std s ≡ r
      → IsAtomic w (stage_normalized std w s r)
  unfolding stage_normalized
  stage_normalized-IsAtomic w s (err e) h n = restored-IsAtomic w e s w.disk h refl
  stage_normalized-IsAtomic w s (ok s') h n =
      stage_rebuilt-IsAtomic w s' (rebuild_store std s')
        ((normalize_resources_locked-header std s n).0 ∙ h)

  stage_resources-IsAtomic :
      (resources : ResourceSet) (w : World) → IsAtomic w (stage_resources std resources w)
  unfolding stage_resources with_resources
  stage_resources-IsAtomic resources w =
      let s = with_resources true resources w.store in
      IsAtomic-if w (eq_ℤ resources.version resource_set_version) _ _
        (stage_normalized-IsAtomic w s (normalize_resources_locked std s) refl refl)
        (IsAtomic-err w (unsupported_version resources.version))

  normalized_or-path :
      (s : Store) (r : Result Error Store)
      → normalize_resources_locked std s ≡ r
      → (normalized_or s r).1.path ≡ s.path
  unfolding normalized_or
  normalized_or-path s (ok s') n = (normalize_resources_locked-header std s n).0
  normalized_or-path s (err x) n = refl

  replace_resources-IsAtomic :
      (call : Call) (resources : ResourceSet) (w : World)
      → IsAtomic w (replace_resources std call resources w)
  unfolding replace_resources with_resources
  replace_resources-IsAtomic call resources w =
      let s = with_resources false resources w.store in
      IsAtomic-if w (eq_ℤ resources.version resource_set_version) _ _
        (commit_or_restore-IsAtomic std call w _
          (normalized_or-path s (normalize_resources_locked std s) refl))
        (IsAtomic-err w (unsupported_version resources.version))

  migrated-IsAtomic :
      (call : Call) (raw : RouteConfig) (s : Store) (w : World)
      → s.path ≡ w.store.path
      → IsAtomic w (commit_or_restore std call w (migrate_route_locked std call.now raw s))
  migrated-IsAtomic call raw s w h = commit_or_restore-IsAtomic std call w _ (
      (migrate_route_locked-Keeps std (At std w.store.path) (At-IsStable std w.store.path) call.now
          raw).at
        s h)

  save_or_restore-IsAtomic :
      (w : World) (o : Outcome (Unit {0}))
      → o.1.store.path ≡ w.store.path
      → ((e : Error) → o.0 ≡ err e → o.1.disk.target ≡ w.disk.target)
      → IsAtomic w (save_or_restore w o)
  save_or_restore-IsAtomic w (ok u, w') h k = IsAtomic-ok w u w'
  save_or_restore-IsAtomic w (err e, w') h k =
      restored-IsAtomic w (save_migrated e) w'.store w'.disk h (k e refl)

  finish_load-IsAtomic :
      (call : Call) (w : World) (o : Result Error Bool × Store)
      → o.1.path ≡ w.store.path
      → IsAtomic w (finish_load std call w o)
  unfolding finish_load
  finish_load-IsAtomic call w (err e, s) h = restored-IsAtomic w e s w.disk h refl
  finish_load-IsAtomic call w (ok false, s) h = IsAtomic-ok w tt (set_store w s)
  finish_load-IsAtomic call w (ok true, s) h =
      save_or_restore-IsAtomic w (save_locked call (set_store w s)) (rw save_locked-store h)
        λ e failed. ((save_locked-IsAtomic call (set_store w s)).at e failed).1

  load_content-IsAtomic :
      (call : Call) (content : Content) (w : World) → IsAtomic w (load_content std call content w)
  unfolding load_content
  load_content-IsAtomic call Content.malformed w = IsAtomic-err w malformed
  load_content-IsAtomic call (payload f) w =
      IsAtomic-if w (gt_ℤ f.version 3) _ _ (IsAtomic-err w (unsupported_version f.version)) (
        finish_load-IsAtomic call w (load_payload std call f w.store)
          ((load_payload-path std w.store.path call f).at w.store refl))

  load_found-IsAtomic :
      (call : Call) (o : Option Content) (w : World) → IsAtomic w (load_found std call o w)
  unfolding load_found
  load_found-IsAtomic call none w = IsAtomic-ok w tt w
  load_found-IsAtomic call (some content) w =
      IsAtomic-if w call.unreadable _ _ (IsAtomic-err w read_failed)
        (load_content-IsAtomic call content w)

  load-IsAtomic : (call : Call) (w : World) → IsAtomic w (load std call w)
  unfolding load
  load-IsAtomic call w =
      IsAtomic-if w (w.store.path == []) _ _ (IsAtomic-ok w tt w)
        (load_found-IsAtomic call w.disk.target w)

  run-IsAtomic : (call : Call) (method : Method) (w : World) → IsAtomic w (run std call method w)
  unfolding run add_listener replace_listener delete_listener add_backend_pool replace_backend_pool
      delete_backend_pool add_routing_rule replace_routing_rule delete_routing_rule
      add_compatibility_route replace_compatibility_route delete_compatibility_route
  run-IsAtomic call (new_listener l) w = returning-IsAtomic w tt _ (
      commit_change-IsAtomic std call w _
        λ a s e. (add_listener_change-header call.now l w.store e).0)
  run-IsAtomic call (changed_listener l) w = returning-IsAtomic w tt _ (
      commit_change-IsAtomic std call w _
        λ a s e. (replace_listener_change-header call.now l w.store e).0)
  run-IsAtomic call (no_listener id) w =
      commit_change-IsAtomic std call w _ λ a s e. (delete_listener_change-header id w.store e).0
  run-IsAtomic call (no_pool id) w =
      commit_change-IsAtomic std call w _ λ a s e. (delete_pool_change-header id w.store e).0
  run-IsAtomic call (no_rule id) w =
      commit_change-IsAtomic std call w _ λ a s e. (delete_rule_change-header id w.store e).0
  run-IsAtomic call (no_route id) w =
      checked-IsAtomic w _ _
        λ old. commit_or_restore-IsAtomic std call w _ (remove_rule-header std old id w.store).0
  run-IsAtomic call (new_pool p) w = returning-IsAtomic w tt _ (
      commit_change-IsAtomic std call w _
        λ a s e. (add_pool_change-header std call.now p w.store e).0)
  run-IsAtomic call (changed_pool p) w = returning-IsAtomic w tt _ (
      commit_change-IsAtomic std call w _
        λ a s e. (replace_pool_change-header std call.now p w.store e).0)
  run-IsAtomic call (new_rule r) w = returning-IsAtomic w tt _ (
      commit_change-IsAtomic std call w _
        λ a s e. (add_rule_change-header std call.now r w.store e).0)
  run-IsAtomic call (changed_rule r) w = returning-IsAtomic w tt _ (
      commit_change-IsAtomic std call w _
        λ a s e. (replace_rule_change-header std call.now r w.store e).0)
  run-IsAtomic call (new_route r) w =
      returning-IsAtomic w tt _
        (checked-IsAtomic w _ _ λ normal. migrated-IsAtomic call normal w.store w refl)
  run-IsAtomic call (changed_route r) w = returning-IsAtomic w tt _ (
      checked-IsAtomic w _ _ λ old.
        migrated-IsAtomic call _ (remove_rule old r.id w.store) w
          (remove_rule-header std old r.id w.store).0)
  run-IsAtomic call (all_resources resources) w = replace_resources-IsAtomic call resources w
  run-IsAtomic call (staged_resources resources) w = stage_resources-IsAtomic resources w
  run-IsAtomic call (statuses list) w = IsAtomic-ok w tt _
  run-IsAtomic call (applied snapshot) w = mark_applied-IsAtomic call snapshot w
  run-IsAtomic call persist w = persist_staged-IsAtomic call w
  run-IsAtomic call reload w = load-IsAtomic call w

  -- A method that returns an error leaves every field of the store and the content of its file as
  -- they were, also when it fails after some of its writes: a migration half way, a rebuild, or a
  -- save at any step.
  pub run-eq-err :
      (call : Call) (method : Method) (w : World) (e : Error)
      → (run std call method w).0 ≡ err e
      → ((run std call method w).1.store ≡ w.store)
        × ((run std call method w).1.disk.target ≡ w.disk.target)
  run-eq-err call method w e h = (run-IsAtomic call method w).at e h
