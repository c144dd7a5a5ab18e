-- ===== src/Routes/Calls/Safety/Methods.antt =====
-- The methods whose steps write before they can fail leave a well-formed store either way.
use caddy_reverse_proxy.Common.{◌≡◌, refl, List, Result, ok, err, Bool, true, false, ltb, ◌||◌}
use caddy_reverse_proxy.Common.Int.{eq_ℤ}
use caddy_reverse_proxy.Text.{Text}
use caddy_reverse_proxy.Model.{RouteConfig}
use caddy_reverse_proxy.Routes.Errors.{Error, stale_revision}
use caddy_reverse_proxy.Routes.Std.{Std, Call}
use caddy_reverse_proxy.Routes.Store.{
  ResourceSet, Snapshot, Store, World, Outcome, save_locked, set_store, resource_set_version,
}
use caddy_reverse_proxy.Routes.Commit.{
  checked, commit_or_restore, returning, rebuild_store, mark_applied, persist_staged,
  finish_applied, finish_persist,
}
use caddy_reverse_proxy.Routes.Operations.{
  replace_resources, stage_resources, with_resources, normalized_or, stage_rebuilt,
  stage_normalized, normalize_resources_locked,
}
use caddy_reverse_proxy.Routes.Compat.{
  add_compatibility_route, replace_compatibility_route, delete_compatibility_route,
  migrate_route_locked,
}
use caddy_reverse_proxy.Routes.Compat.Pruning.{remove_rule}
use caddy_reverse_proxy.Routes.Invariant.{IsWellFormed}
use caddy_reverse_proxy.Routes.Invariant.Changes.{
  IsStoreValid, normalize_resources_locked-IsStoreValid,
}
use caddy_reverse_proxy.Routes.Invariant.Commit.{
  save_locked-store, if-outcome, restore_locked-IsWellFormed, returning-store,
  commit_or_restore-IsWellFormed,
}
use caddy_reverse_proxy.Routes.Invariant.Compat.{migrate_route_locked-Keeps}
use caddy_reverse_proxy.Routes.Invariant.Prune.{IsStoreValid-IsStable, remove_rule-IsStoreValid}

module _ (std : Std) where
  abbrev pub Good : World → Type 0
  Good w = IsWellFormed std w.store

  stage_rebuilt-Good :
      (w : World) (s : Store) (r : Result Error (List RouteConfig))
      → Good w
      → IsStoreValid std s
      → rebuild_store std s ≡ r
      → Good (stage_rebuilt w s r).1
  unfolding stage_rebuilt
  stage_rebuilt-Good w s (err e) h v c = restore_locked-IsWellFormed std w.store s h
  stage_rebuilt-Good w s (ok routes) h v c = record { resources = v; compiled = c }

  stage_normalized-Good :
      (w : World) (s : Store) (r : Result Error Store)
      → Good w
      → normalize_resources_locked std s ≡ r
      → Good (stage_normalized std w s r).1
  unfolding stage_normalized
  stage_normalized-Good w s (err e) h n = restore_locked-IsWellFormed std w.store s h
  stage_normalized-Good w s (ok s') h n =
      stage_rebuilt-Good w s' (rebuild_store std s') h
        (normalize_resources_locked-IsStoreValid std s n) refl

  pub stage_resources-Good :
      (resources : ResourceSet) (w : World) → Good w → Good (stage_resources std resources w).1
  unfolding stage_resources
  stage_resources-Good resources w h =
      let s = with_resources true resources w.store in
      if-outcome Good (eq_ℤ resources.version resource_set_version) _ _
        (stage_normalized-Good w s (normalize_resources_locked std s) h refl) h

  normalized_or-IsStoreValid :
      (s : Store) (r : Result Error Store) (u : Unit {0})
      → normalize_resources_locked std s ≡ r
      → (normalized_or s r).0 ≡ ok u
      → IsStoreValid std (normalized_or s r).1
  unfolding normalized_or
  normalized_or-IsStoreValid s (ok s') u n e = normalize_resources_locked-IsStoreValid std s n
  normalized_or-IsStoreValid s (err x) u n e = cc

  pub replace_resources-Good :
      (call : Call) (resources : ResourceSet) (w : World)
      → Good w
      → Good (replace_resources std call resources w).1
  unfolding replace_resources
  replace_resources-Good call resources w h =
      let s = with_resources false resources w.store in
      if-outcome Good (eq_ℤ resources.version resource_set_version) _ _
        (commit_or_restore-IsWellFormed std call w _ h
          λ u e. normalized_or-IsStoreValid s (normalize_resources_locked std s) u refl e)
        h

  migrated-Good :
      (call : Call) (raw : RouteConfig) (s : Store) (w : World)
      → Good w
      → IsStoreValid std s
      → Good (commit_or_restore std call w (migrate_route_locked std call.now raw s)).1
  migrated-Good call raw s w h v = commit_or_restore-IsWellFormed std call w _ h λ a e.
      (migrate_route_locked-Keeps std (IsStoreValid std) (IsStoreValid-IsStable std) call.now
          raw).at
        s v

  checked-Good :
      {X A : Type 0} (w : World) (r : Result Error X) (k : X → Outcome A)
      → Good w
      → ((x : X) → Good (k x).1)
      → Good (checked w r k).1
  unfolding checked
  checked-Good w (ok x) k h g = g x
  checked-Good w (err e) k h g = h

  pub returning-Good : {A B : Type 0} (b : B) (o : Outcome A) → Good o.1 → Good (returning b o).1
  returning-Good b o h = rw returning-store h

  pub add_compatibility_route-Good :
      (call : Call) (raw : RouteConfig) (w : World)
      → Good w
      → Good (add_compatibility_route std call raw w).1
  unfolding add_compatibility_route
  add_compatibility_route-Good call raw w h =
      checked-Good w _ _ h λ r. migrated-Good call r w.store w h h.resources

  pub replace_compatibility_route-Good :
      (call : Call) (raw : RouteConfig) (w : World)
      → Good w
      → Good (replace_compatibility_route std call raw w).1
  unfolding replace_compatibility_route
  replace_compatibility_route-Good call raw w h = checked-Good w _ _ h λ old.
      migrated-Good call _ (remove_rule old raw.id w.store) w h
        (remove_rule-IsStoreValid std old raw.id w.store h.resources)

  pub delete_compatibility_route-Good :
      (call : Call) (id : Text) (w : World)
      → Good w
      → Good (delete_compatibility_route std call id w).1
  unfolding delete_compatibility_route
  delete_compatibility_route-Good call id w h = checked-Good w _ _ h λ old.
      commit_or_restore-IsWellFormed std call w _ h
        λ u e. remove_rule-IsStoreValid std old id w.store h.resources

  -- A write that touches neither the resources nor the routes.
  bookkeeping-Good :
      (w : World) (staged : Bool) (n : Snapshot)
      → Good w
      → Good (set_store w (record w.store { staged = staged; applied = n }))
  bookkeeping-Good w staged n h = record { resources = h.resources; compiled = h.compiled }

  finish_applied-Good :
      (previous : Snapshot) (o : Outcome (Unit {0})) → Good o.1 → Good (finish_applied previous o).1
  finish_applied-Good previous (ok u, w) h = bookkeeping-Good w false w.store.applied h
  finish_applied-Good previous (err e, w) h = bookkeeping-Good w w.store.staged previous h

  pub mark_applied-Good :
      (call : Call) (snapshot : Snapshot) (w : World)
      → Good w
      → Good (mark_applied call snapshot w).1
  unfolding mark_applied
  mark_applied-Good call snapshot w h =
      let saved : Outcome (Unit {0}) =
        save_locked call (set_store w (record w.store { applied = snapshot })) in
      let good : Good saved.1 =
        rw save_locked-store (bookkeeping-Good w w.store.staged snapshot h) in
      if-outcome Good
        (ltb w.store.revision snapshot.revision || ltb snapshot.revision w.store.applied.revision)
        (err stale_revision, w) (finish_applied w.store.applied saved) h
        (finish_applied-Good w.store.applied saved good)

  finish_persist-Good : (o : Outcome (Unit {0})) → Good o.1 → Good (finish_persist o).1
  finish_persist-Good (ok u, w) h = bookkeeping-Good w false w.store.applied h
  finish_persist-Good (err e, w) h = h

  pub persist_staged-Good : (call : Call) (w : World) → Good w → Good (persist_staged call w).1
  unfolding persist_staged
  persist_staged-Good call w h =
      let good : Good (save_locked call w).1 = rw save_locked-store h in
      if-outcome Good w.store.staged (finish_persist (save_locked call w)) (ok tt, w)
        (finish_persist-Good (save_locked call w) good) h
