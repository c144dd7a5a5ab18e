-- ===== src/Routes/Invariant/Load.antt =====
-- A load that returns leaves a well-formed store, from a file of any version; one that fails leaves
-- the store that there was.
use caddy_reverse_proxy.Common.{
  ℕ, ◌≡◌, refl, Bool, true, false, Option, none, some, List, [], ◌∷◌, Result, ok, err,
}
use caddy_reverse_proxy.Common.Exec.Keeps.{
  Keeps, Keeps-if, Keeps-bind, Keeps-pure, Keeps-modify, Keeps-lift, continue-Keeps,
}
use caddy_reverse_proxy.Common.Exec.Ensures.{
  Ensures, Ensures-pure, Ensures-if, Ensures_of_Keeps, Ensures-modify, Ensures-bind,
}
use caddy_reverse_proxy.Common.Int.{gt_ℤ}
use caddy_reverse_proxy.Text.{◌==◌}
use caddy_reverse_proxy.Model.{RouteConfig}
use caddy_reverse_proxy.Routes.Errors.{Error, migrate_failed}
use caddy_reverse_proxy.Routes.Std.{Std, Call}
use caddy_reverse_proxy.Routes.Store.{
  Snapshot, Store, World, Outcome, FileFormat, Content, payload, set_store, save_locked,
}
use caddy_reverse_proxy.Routes.Commit.{rebuild_store}
use caddy_reverse_proxy.Routes.Operations.{normalize_resources_locked}
use caddy_reverse_proxy.Routes.Compat.{migrate_route_locked, rebuild_routes_locked, keep_routes}
use caddy_reverse_proxy.Routes.Load.{
  take_lists, clear_lists, keep_normalized, map_error, later, migrate_routes, load_routing,
  load_revisions, load_payload, finish_load, load_content, load_found, load, save_or_restore,
}
use caddy_reverse_proxy.Routes.Invariant.{IsWellFormed}
use caddy_reverse_proxy.Routes.Invariant.Changes.{
  IsStoreValid, normalize_resources_locked-IsStoreValid,
}
use caddy_reverse_proxy.Routes.Invariant.Commit.{
  restore_locked-IsWellFormed, save_locked-store, if-outcome,
}
use caddy_reverse_proxy.Routes.Invariant.Compat.{IsStable, migrate_route_locked-Keeps}
use caddy_reverse_proxy.Routes.Invariant.Prune.{IsStoreValid-IsStable}

abbrev AnyStore : Store → Type 0
AnyStore s = Unit

module _ (std : Std) where
  module _ (P : Store → Type 0) (stable : IsStable std P) where
    mapped-Keeps :
        {A : Type 0} (f : Error → Error) (o : Result Error A × Store) → P o.1 → P (map_error f o).1
    mapped-Keeps f (r, s) h = h

    pub migrate_routes-Keeps :
        (now : ℕ → ℕ) (routes : List RouteConfig) → Keeps P (migrate_routes std now routes)
    unfolding migrate_routes
    migrate_routes-Keeps now [] = record { at = λ s h. h }
    migrate_routes-Keeps now (r ∷ routes) = record {
      at = λ s h.
          continue-Keeps _ _
            (mapped-Keeps (migrate_failed r.id) (migrate_route_locked std now r s)
              ((migrate_route_locked-Keeps std P stable now r).at s h))
            λ _. migrate_routes-Keeps (later now) routes;
    }

  keep_normalized-IsStoreValid :
      (s : Store) (r : Result Error Store) (u : Unit {0})
      → normalize_resources_locked std s ≡ r
      → (keep_normalized s r).0 ≡ ok u
      → IsStoreValid std (keep_normalized s r).1
  keep_normalized-IsStoreValid s (ok s') u e h = normalize_resources_locked-IsStoreValid std s e
  keep_normalized-IsStoreValid s (err x) u e h = cc

  clear_lists-IsStoreValid : (s : Store) → IsStoreValid std (clear_lists s)
  unfolding clear_lists
  clear_lists-IsStoreValid s = record {
    listeners = tt;
    listeners_apart = tt;
    pools = tt;
    pools_apart = tt;
    rules = tt;
    rules_apart = tt;
  }

  load_routing-IsStoreValid :
      (now : ℕ → ℕ) (f : FileFormat) → Ensures AnyStore (load_routing std now f) (IsStoreValid std)
  unfolding load_routing
  load_routing-IsStoreValid now f =
      Ensures-if _ _ _
        (Ensures-bind {Q = AnyStore} _ _ (Ensures-modify (take_lists f) (λ s h. tt)) λ _.
          Ensures-bind {Q = IsStoreValid std} _ _
            (record {
              at = λ s _ u e.
                  keep_normalized-IsStoreValid s (normalize_resources_locked std s) u refl e;
            })
            λ _. Ensures-pure false (λ s h. h))
        (Ensures-bind {Q = IsStoreValid std} _ _
          (Ensures-modify clear_lists (λ s h. clear_lists-IsStoreValid s))
          λ _.
            Ensures-bind {Q = IsStoreValid std} _ _
              (Ensures_of_Keeps _
                (migrate_routes-Keeps (IsStoreValid std) (IsStoreValid-IsStable std) now f.routes))
              λ _. Ensures-pure true (λ s h. h))

  keep_routes-IsWellFormed :
      (s : Store) (r : Result Error (List RouteConfig)) (u : Unit {0})
      → rebuild_store std s ≡ r
      → IsStoreValid std s
      → (keep_routes r s).0 ≡ ok u
      → IsWellFormed std (keep_routes r s).1
  unfolding keep_routes
  keep_routes-IsWellFormed s (ok routes) u e v h = record { resources = v; compiled = e }
  keep_routes-IsWellFormed s (err x) u e v h = cc

  rebuild-IsWellFormed : Ensures (IsStoreValid std) (rebuild_routes_locked std) (IsWellFormed std)
  unfolding rebuild_routes_locked
  rebuild-IsWellFormed = record {
    at = λ s v u e. keep_routes-IsWellFormed s (rebuild_store std s) u refl v e;
  }

  load_revisions-IsWellFormed :
      (call : Call) (f : FileFormat) (migrated : Bool)
      → Keeps (IsWellFormed std) (load_revisions std call f migrated)
  unfolding load_revisions
  load_revisions-IsWellFormed call f migrated =
      Keeps-if _ _ _
        (Keeps-bind _ _ (Keeps-modify _ λ s h. same h)
          λ _. Keeps-bind _ _ (Keeps-modify _ λ s h. same h) λ _. Keeps-pure true)
        (Keeps-bind _ _ (Keeps-modify _ λ s h. same h) λ _.
          Keeps-bind _ _ (Keeps-lift _)
            λ snapshot. Keeps-bind _ _ (Keeps-modify _ λ s h. same h) λ _. Keeps-pure migrated)
    where
      same :
          {s : Store} {staged : Bool} {n : ℕ} {applied : Snapshot}
          → IsWellFormed std s
          → IsWellFormed std (record s { staged = staged; revision = n; applied = applied })
      same h = record { resources = h.resources; compiled = h.compiled }

  load_payload-IsWellFormed :
      (call : Call) (f : FileFormat) → Ensures AnyStore (load_payload std call f) (IsWellFormed std)
  unfolding load_payload
  load_payload-IsWellFormed call f =
      Ensures-bind {Q = IsStoreValid std} _ _ (load_routing-IsStoreValid call.now f) λ migrated.
        Ensures-bind {Q = IsWellFormed std} _ _ rebuild-IsWellFormed
          λ _. Ensures_of_Keeps _ (load_revisions-IsWellFormed call f migrated)

  save_or_restore-IsWellFormed :
      (w : World) (o : Outcome (Unit {0}))
      → IsWellFormed std w.store
      → IsWellFormed std o.1.store
      → IsWellFormed std (save_or_restore w o).1.store
  save_or_restore-IsWellFormed w (ok u, w') h k = k
  save_or_restore-IsWellFormed w (err e, w') h k =
      restore_locked-IsWellFormed std w.store w'.store h

  finish_load-IsWellFormed :
      (call : Call) (w : World) (o : Result Error Bool × Store)
      → IsWellFormed std w.store
      → ((b : Bool) → o.0 ≡ ok b → IsWellFormed std o.1)
      → IsWellFormed std (finish_load std call w o).1.store
  unfolding finish_load
  finish_load-IsWellFormed call w (err e, s) h k = restore_locked-IsWellFormed std w.store s h
  finish_load-IsWellFormed call w (ok false, s) h k = k false refl
  finish_load-IsWellFormed call w (ok true, s) h k =
      save_or_restore-IsWellFormed w (save_locked call (set_store w s)) h
        (rw save_locked-store (k true refl))

  load_content-IsWellFormed :
      (call : Call) (content : Content) (w : World)
      → IsWellFormed std w.store
      → IsWellFormed std (load_content std call content w).1.store
  unfolding load_content
  load_content-IsWellFormed call Content.malformed w h = h
  load_content-IsWellFormed call (payload f) w h =
      if-outcome (λ v. IsWellFormed std v.store) (gt_ℤ f.version 3) _ _ h
        (finish_load-IsWellFormed call w (load_payload std call f w.store) h
          λ b e. (load_payload-IsWellFormed call f).at w.store tt b e)

  -- The file is read, or there is none.
  found_content-IsWellFormed :
      (call : Call) (o : Option Content) (w : World)
      → IsWellFormed std w.store
      → IsWellFormed std (load_found std call o w).1.store
  unfolding load_found
  found_content-IsWellFormed call none w h = h
  found_content-IsWellFormed call (some content) w h =
      if-outcome (λ v. IsWellFormed std v.store) call.unreadable _ _ h
        (load_content-IsWellFormed call content w h)

  pub load-IsWellFormed :
      (call : Call) (w : World)
      → IsWellFormed std w.store
      → IsWellFormed std (load std call w).1.store
  unfolding load
  load-IsWellFormed call w h =
      if-outcome (λ v. IsWellFormed std v.store) (w.store.path == []) _ _ h
        (found_content-IsWellFormed call w.disk.target w h)
