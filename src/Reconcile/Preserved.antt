-- ===== src/Reconcile/Preserved.antt =====
-- A sync without pending routing changes neither sees them nor touches them.
use caddy_reverse_proxy.Common.{
  ℕ, ◌≡◌, refl, sym, subst, ◌∙◌, inl, inr, Bool, true, false, Option, none, some, List, ◌++◌,
  Result, ok, err, eqb, Bool-cases,
}
use caddy_reverse_proxy.Text.{Text}
use caddy_reverse_proxy.Model.{RouteConfig, ReconcileResult}
use caddy_reverse_proxy.Routes.Store.{Snapshot, World}
use caddy_reverse_proxy.Reconcile.{Services, Answers, Reconciler, new_result, finish}
use caddy_reverse_proxy.Reconcile.Sync.{
  Phase, next_generation, read_previous, after_commit, after_load, after_render, load_prepared,
  after_reading, fail_sync, with_error, commit_of, sync,
}
use caddy_reverse_proxy.Reconcile.Prepare.{Prepared, discover, prepared, prepare, snapshot_of}
use caddy_reverse_proxy.Reconcile.Restore.{load, update_for}
use caddy_reverse_proxy.Reconcile.Run.{applied_request}

module _ {Output : Type 0} where
  -- Two outcomes of the same phase with the same running configuration; the first leaves the world
  -- as it was.
  pub record Agree (w : World) (o o' : Phase × Reconciler Output) : Type 0 where
    pub phase : o.0 ≡ o'.0
    pub runtime : o.1.runtime ≡ o'.1.runtime
    pub world : o.1.world ≡ w

  fail_sync-Agree :
      (answers : Answers Output) (result : ReconcileResult) (g : ℕ) (r : Reconciler Output)
      (w : World)
      → result.caddy_loaded ≡ false
      → Agree r.world
          (fail_sync answers (result, r) g)
          (fail_sync answers (result, record r { world = w }) g)
  unfolding fail_sync finish
  fail_sync-Agree answers result g r w h = elim (Bool-cases (eqb r.generation g)) [
    | inr e ↦ rw e (record { phase = refl; runtime = refl; world = refl })
    | inl e ↦ rw e (record { phase = refl; runtime = refl; world = rw h refl })
  ]

  module _ (services : Services Output) (answers : Answers Output) (p : Prepared Output)
      (fresh : p.result.caddy_loaded ≡ false) where
    after_load-Agree :
        (error : Option Text) (r : Reconciler Output) (w : World)
        → Agree r.world
            (after_load services answers applied_request p (error, r))
            (after_load services answers applied_request p (error, record r { world = w }))
    unfolding after_load after_commit commit_of
    after_load-Agree none r w = record { phase = refl; runtime = refl; world = refl }
    after_load-Agree (some e) r w =
        fail_sync-Agree answers (with_error p.result e) p.generation r w fresh

    loaded-Agree :
        (error : Option Text) (taken : Bool) (output : Output) (r : Reconciler Output) (w : World)
        → Agree r.world
            (after_load services answers applied_request p
              (load (record { error = error; taken = taken }) output r))
            (after_load services answers applied_request p
              (load (record { error = error; taken = taken }) output (record r { world = w })))
    unfolding load
    loaded-Agree error true output r w =
        after_load-Agree error (record r { runtime = some output }) w
    loaded-Agree error false output r w = after_load-Agree error r w

    after_render-Agree :
        (rendered : Result Text Output) (r : Reconciler Output) (w : World)
        → Agree r.world
            (after_render services answers applied_request p rendered r)
            (after_render services answers applied_request p rendered (record r { world = w }))
    unfolding after_render update_for
    after_render-Agree (ok output) r w =
        loaded-Agree answers.load.error answers.load.taken output r w
    after_render-Agree (err e) r w =
        fail_sync-Agree answers (with_error p.result e) p.generation r w fresh

  discover-world :
      (answer : Option (Result Text (List RouteConfig))) (r : Reconciler Output) (w : World)
      → ((discover answer r).1.world ≡ r.world)
        × ((discover answer (record r { world = w })).0 ≡ (discover answer r).0)
        × ((discover answer (record r { world = w })).1
            ≡ record (discover answer r).1 { world = w })
  unfolding discover
  discover-world none r w = (refl, refl, refl)
  discover-world (some (ok routes)) r w = (refl, refl, refl)
  discover-world (some (err e)) r w = (refl, refl, refl)

-- SyncWithoutPendingRoutingChanges knows the applied routes only. On two states that differ in their
-- stores but have the same applied snapshot, it answers the same and leaves Caddy with the same
-- configuration, so pending changes of the routes never reach Caddy by it; and up to its checks it
-- leaves the store and its file as they were, so the pending changes stay.
pub sync-applied_only :
    {Output : Type 0} (services : Services Output) (answers : Answers Output)
    (r : Reconciler Output) (w : World)
    → w.store.applied ≡ r.world.store.applied
    → let o = sync services answers applied_request r in
      let o' = sync services answers applied_request (record r { world = w }) in
      (o.0 ≡ o'.0) × (o.1.runtime ≡ o'.1.runtime) × (o.1.world ≡ r.world)
unfolding sync read_previous after_reading load_prepared prepare snapshot_of next_generation
    new_result
sync-applied_only {Output} services answers r w applied =
    let r1 = next_generation r in
    let (same, routes, state) = discover-world answers.discover r1 w in
    let (found, r2) = discover answers.discover r1 in
    let before : Snapshot → List RouteConfig → Prepared Output = λ a d.
      prepared answers.started a
        (record { cfg = r.cfg; applied = a; discovered = r.last_discovered; runtime = none }) r.cfg
        r1.generation d in
    let rest : Snapshot → List RouteConfig → Reconciler Output → Phase × Reconciler Output =
      λ a d s.
        after_render services answers applied_request (before a d)
          (services.render s.renderer_cfg (a.routes ++ d)) s in
    let known = r.world.store.applied in
    let first = rest known found r2 in
    let agree : Agree r2.world first (rest known found (record r2 { world = w })) =
      after_render-Agree services answers (before known found) refl
        (services.render r2.renderer_cfg (known.routes ++ found)) r2 w in
    let (found', r2') = discover answers.discover (record r1 { world = w }) in
    let moved : Agree r2.world first (rest w.store.applied found' r2') =
      subst (λ (a : Snapshot). Agree r2.world first (rest a found' r2')) (sym applied)
        (subst (λ (d : List RouteConfig). Agree r2.world first (rest known d r2')) (sym routes)
          (subst (λ (s : Reconciler Output). Agree r2.world first (rest known found s)) (sym state)
            agree)) in
    (moved.phase, moved.runtime, moved.world ∙ same)
