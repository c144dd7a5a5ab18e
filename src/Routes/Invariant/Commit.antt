-- ===== src/Routes/Invariant/Commit.antt =====
-- A commit of valid resources leaves a well-formed store, whatever fails on the way.
use caddy_reverse_proxy.Common.{
  ℕ, ◌≡◌, refl, Bool, true, false, List, ok, err, arith, Result, if◌then◌else◌,
}
use caddy_reverse_proxy.Model.{RouteConfig}
use caddy_reverse_proxy.Routes.Errors.{Error}
use caddy_reverse_proxy.Routes.Std.{Std, Call}
use caddy_reverse_proxy.Routes.Store.{
  Store, World, Outcome, set_store, snapshot_locked, restore_locked, save_locked,
}
use caddy_reverse_proxy.Routes.Commit.{
  or_restore, returning, commit_rebuilt, commit_locked, commit_change, commit_or_restore,
  rebuild_store, next_revision,
}
use caddy_reverse_proxy.Routes.Invariant.{IsWellFormed}
use caddy_reverse_proxy.Routes.Invariant.Changes.{IsStoreValid}

pub save_locked-store : (call : Call) (w : World) → (save_locked call w).1.store ≡ w.store
unfolding save_locked
save_locked-store call w = ground arith

-- A property of worlds holds after a branch if it holds after both.
pub if-outcome :
    (P : World → Type 0) {A : Type 0} (b : Bool) (x y : Outcome A)
    → P x.1
    → P y.1
    → P (if b then x else y).1
if-outcome P true x y h k = h
if-outcome P false x y h k = k

module _ (std : Std) where
  pub restore_locked-IsWellFormed :
      (s s' : Store) → IsWellFormed std s → IsWellFormed std (restore_locked (snapshot_locked s) s')
  unfolding restore_locked snapshot_locked
  restore_locked-IsWellFormed s s' h = record { resources = h.resources; compiled = h.compiled }

  or_restore-IsWellFormed :
      (s : Store) {A : Type 0} (o : Outcome A)
      → IsWellFormed std s
      → IsWellFormed std o.1.store
      → IsWellFormed std (or_restore (snapshot_locked s) o).1.store
  unfolding or_restore
  or_restore-IsWellFormed s (ok a, w) h k = k
  or_restore-IsWellFormed s (err e, w) h k = restore_locked-IsWellFormed s w.store h

  pub returning-store : {A B : Type 0} (b : B) (o : Outcome A) → (returning b o).1 ≡ o.1
  unfolding returning
  returning-store b (ok a, w) = refl
  returning-store b (err e, w) = refl

  rebuilt-IsWellFormed :
      (s : Store) (routes : List RouteConfig) (n : ℕ)
      → IsStoreValid std s
      → rebuild_store std s ≡ ok routes
      → IsWellFormed std (record s { routes = routes; revision = n })
  rebuilt-IsWellFormed s routes n v e = record { resources = v; compiled = e }

  commit_rebuilt-IsWellFormed :
      (call : Call) (s : Store) (r : Result Error (List RouteConfig)) (w : World)
      → IsWellFormed std s
      → IsStoreValid std w.store
      → rebuild_store std w.store ≡ r
      → IsWellFormed std (commit_rebuilt call (snapshot_locked s) r w).1.store
  unfolding commit_rebuilt
  commit_rebuilt-IsWellFormed call s (err e) w h v c = restore_locked-IsWellFormed s w.store h
  commit_rebuilt-IsWellFormed call s (ok routes) w h v c =
      let s' = record w.store { routes = routes; revision = next_revision w.store.revision } in
      let good = rebuilt-IsWellFormed w.store routes (next_revision w.store.revision) v c in
      if-outcome (λ v. IsWellFormed std v.store) w.store.staged _ _ good
        (or_restore-IsWellFormed s (save_locked call (set_store w s')) h
          (rw save_locked-store good))

  pub commit_locked-IsWellFormed :
      (call : Call) (s : Store) (w : World)
      → IsWellFormed std s
      → IsStoreValid std w.store
      → IsWellFormed std (commit_locked std call (snapshot_locked s) w).1.store
  unfolding commit_locked
  commit_locked-IsWellFormed call s w h v =
      commit_rebuilt-IsWellFormed call s (rebuild_store std w.store) w h v refl

  -- The store after a method with a change that keeps resources valid.
  pub commit_change-IsWellFormed :
      {A : Type 0} (call : Call) (w : World) (r : Result Error (A × Store))
      → IsWellFormed std w.store
      → ((a : A) (s : Store) → r ≡ ok (a, s) → IsStoreValid std s)
      → IsWellFormed std (commit_change std call w r).1.store
  unfolding commit_change
  commit_change-IsWellFormed call w (err e) h v = h
  commit_change-IsWellFormed call w (ok (a, s)) h v =
      rw returning-store (commit_locked-IsWellFormed call w.store (set_store w s) h (v a s refl))

  pub commit_or_restore-IsWellFormed :
      {A : Type 0} (call : Call) (w : World) (o : Result Error A × Store)
      → IsWellFormed std w.store
      → ((a : A) → o.0 ≡ ok a → IsStoreValid std o.1)
      → IsWellFormed std (commit_or_restore std call w o).1.store
  unfolding commit_or_restore
  commit_or_restore-IsWellFormed call w (err e, s) h v = restore_locked-IsWellFormed w.store s h
  commit_or_restore-IsWellFormed call w (ok a, s) h v =
      rw returning-store (commit_locked-IsWellFormed call w.store (set_store w s) h (v a refl))
