-- ===== src/Reconcile/Applied.antt =====
-- A sync for which every service does its part ends with nothing pending.
use caddy_reverse_proxy.Common.{
  ℕ, ◌≡◌, ◌≤◌, refl, sym, ap, subst, ◌∙◌, inl, inr, true, false, not, ◌&&◌, Option, none, some,
  List, ◌++◌, Result, ok, err, eqb, arith, Bool-cases, is_empty,
}
use caddy_reverse_proxy.Text.{Text}
use caddy_reverse_proxy.Model.{RouteConfig, ReconcileResult}
use caddy_reverse_proxy.Model.Config.{AppConfig}
use caddy_reverse_proxy.Routes.Store.{Snapshot, Store, World, desired_snapshot, pending}
use caddy_reverse_proxy.Routes.Commit.{mark_applied}
use caddy_reverse_proxy.Routes.Runtime.{set_runtime_status}
use caddy_reverse_proxy.Reconcile.{Services, LoadAnswer, Answers, Reconciler, finish}
use caddy_reverse_proxy.Reconcile.Sync.{
  Pending, Phase, commit_applied, commit_of, next_generation, read_previous, after_commit,
  after_load, after_render, load_prepared, after_reading, sync,
}
use caddy_reverse_proxy.Reconcile.Prepare.{
  Prepared, discover, prepared, previous_of, prepare, snapshot_of,
}
use caddy_reverse_proxy.Reconcile.Restore.{load}
use caddy_reverse_proxy.Reconcile.Checks.{CheckAnswers, with_health, with_azure, check}
use caddy_reverse_proxy.Reconcile.Run.{plain_request, sync_alone, check_phase}
use caddy_reverse_proxy.Reconcile.Marked.{mark_applied-IsMarked, described-ok}

checks-loaded :
    (answers : CheckAnswers) (p : Pending)
    → (with_azure answers.azure answers.cancelled p.cfg p.routes
        (with_health answers.check p.routes p.result)).caddy_loaded
      ≡ p.result.caddy_loaded
unfolding with_azure with_health
checks-loaded answers p = ground arith

module _ {Output : Type 0} where
  load-taken :
      (answer : LoadAnswer) (output : Output) (r : Reconciler Output)
      → answer.error ≡ none
      → answer.taken ≡ true
      → load answer output r ≡ (none, record r { runtime = some output })
  unfolding load
  load-taken answer output r h k = rw (h, k) refl

  -- Caddy runs `output`, and the store holds `snapshot` as applied, at the revision `n`.
  pub record Runs (output : Output) (snapshot : Snapshot) (n : ℕ) (r : Reconciler Output)
      : Type 0 where
    pub runtime : r.runtime ≡ some output
    pub applied : r.world.store.applied ≡ snapshot
    pub revision : r.world.store.revision ≡ n

  finish-Runs :
      (output : Output) (snapshot : Snapshot) (n : ℕ) (now : ℕ) (result : ReconcileResult) (g : ℕ)
      (r : Reconciler Output)
      → Runs output snapshot n r
      → Runs output snapshot n (finish now result g r).1
  unfolding finish set_runtime_status
  finish-Runs output snapshot n now result g r h = elim (Bool-cases (eqb r.generation g)) [
    | inr e ↦ rw e h
    | inl e ↦ rw e (elim (Bool-cases (result.caddy_loaded && not (is_empty result.route_health))) [
      | inl f ↦ rw f (record { runtime = h.runtime; applied = h.applied; revision = h.revision })
      | inr f ↦ rw f (record { runtime = h.runtime; applied = h.applied; revision = h.revision })
    ])
  ]

  -- The outcome of a sync that loaded a configuration.
  pub record Loads (output : Output) (snapshot : Snapshot) (n : ℕ)
      (o : ReconcileResult × Reconciler Output) : Type 0 where
    pub loaded : o.0.caddy_loaded ≡ true
    pub runs : Runs output snapshot n o.1

  finish-loaded :
      (now : ℕ) (result : ReconcileResult) (g : ℕ) (r : Reconciler Output)
      → (finish now result g r).0.caddy_loaded ≡ result.caddy_loaded
  unfolding finish
  finish-loaded now result g r = elim (Bool-cases (eqb r.generation g)) [
    | inl e ↦ rw e refl
    | inr e ↦ rw e refl
  ]

  check-Loads :
      (answers : CheckAnswers) (output : Output) (snapshot : Snapshot) (n : ℕ) (p : Pending)
      (r : Reconciler Output)
      → p.result.caddy_loaded ≡ true
      → Runs output snapshot n r
      → Loads output snapshot n (check answers p r)
  unfolding check
  check-Loads answers output snapshot n p r h k =
      let result =
        with_azure answers.azure answers.cancelled p.cfg p.routes
          (with_health answers.check p.routes p.result) in
      record {
        loaded = finish-loaded answers.finished result p.generation r ∙ checks-loaded answers p ∙ h;
        runs = finish-Runs output snapshot n answers.finished result p.generation r k;
      }

  module _ (services : Services Output) (answers : Answers Output) (checks : CheckAnswers)
      (took : answers.load.error ≡ none) (taken : answers.load.taken ≡ true)
      (saved : answers.call.fault ≡ none) where
    after_render-Loads :
        (p : Prepared Output) (output : Output) (r : Reconciler Output)
        → r.world.store.applied.revision ≤ p.snapshot.revision
        → p.snapshot.revision ≤ r.world.store.revision
        → Loads output p.snapshot r.world.store.revision
            (check_phase checks (after_render services answers plain_request p (ok output) r))
    unfolding after_render after_load after_commit commit_of commit_applied
    after_render-Loads p output r low high =
        let marked = mark_applied-IsMarked answers.call p.snapshot r.world saved low high in
        let r1 = record r { runtime = some output } in
        let loaded = load-taken answers.load output r took taken in
        let noted =
          described-ok services.describe (mark_applied answers.call p.snapshot r.world)
            marked.succeeded in
        let committed : Result Text (Unit {0}) × World → Phase × Reconciler Output =
          λ c. after_commit services answers plain_request p (c.0, record r1 { world = c.1 }) in
        subst
          (λ (l : Option Text × Reconciler Output).
            Loads output p.snapshot r.world.store.revision
              (check_phase checks (after_load services answers plain_request p l)))
          (sym loaded)
          (subst
            (λ (c : Result Text (Unit {0}) × World).
              Loads output p.snapshot r.world.store.revision (check_phase checks (committed c)))
            (sym noted)
            (check-Loads checks output p.snapshot r.world.store.revision _ _ refl
              (record { runtime = refl; applied = marked.applied; revision = marked.revision })))

rendered-Loads :
    {Output : Type 0} (services : Services Output) (answers : Answers Output)
    (checks : CheckAnswers) (p : Prepared Output) (rendered : Result Text Output) (output : Output)
    (w : World) (r : Reconciler Output)
    → answers.load.error ≡ none
    → answers.load.taken ≡ true
    → answers.call.fault ≡ none
    → rendered ≡ ok output
    → r.world ≡ w
    → p.snapshot ≡ desired_snapshot w.store
    → w.store.applied.revision ≤ w.store.revision
    → Loads output
        (desired_snapshot w.store)
        w.store.revision
        (check_phase checks (after_render services answers plain_request p rendered r))
unfolding desired_snapshot
rendered-Loads {Output} services answers checks p rendered output w r took taken saved renders world
      snap low =
    let high : p.snapshot.revision ≡ w.store.revision = ap (λ (x : Snapshot). x.revision) snap in
    let here : r.world.store.revision ≡ w.store.revision =
      ap (λ (x : World). x.store.revision) world in
    let there : r.world.store.applied.revision ≡ w.store.applied.revision =
      ap (λ (x : World). x.store.applied.revision) world in
    let loads =
      after_render-Loads services answers checks took taken saved p output r (omega arith)
        (omega arith) in
    subst
      (λ (result : Result Text Output).
        Loads output (desired_snapshot w.store) w.store.revision
          (check_phase checks (after_render services answers plain_request p result r)))
      (sym renders)
      (subst
        (λ (x : Snapshot).
          Loads output x w.store.revision
            (check_phase checks (after_render services answers plain_request p (ok output) r)))
        snap
        (subst
          (λ (n : ℕ).
            Loads output p.snapshot n
              (check_phase checks (after_render services answers plain_request p (ok output) r)))
          here loads))

discover-next :
    {Output : Type 0} (answer : Option (Result Text (List RouteConfig))) (r : Reconciler Output)
    → ((discover answer (next_generation r)).0 ≡ (discover answer r).0)
      × ((discover answer (next_generation r)).1.world ≡ r.world)
      × ((discover answer (next_generation r)).1.renderer_cfg ≡ r.renderer_cfg)
unfolding discover next_generation
discover-next none r = (refl, refl, refl)
discover-next (some (ok routes)) r = (refl, refl, refl)
discover-next (some (err e)) r = (refl, refl, refl)

Loads-pending :
    {Output : Type 0} (output : Output) (s : Store) (o : ReconcileResult × Reconciler Output)
    → Loads output (desired_snapshot s) s.revision o
    → pending o.1.world.store ≡ false
unfolding pending desired_snapshot
Loads-pending output s o h = rw (h.runs.applied, h.runs.revision) (ground arith)

-- Sync, when every service does its part: the desired routes and the discovered ones render to an
-- output, Caddy takes it, and the store's file can be written. From a state whose applied revision is
-- not ahead of the desired one, and whatever the health checks and Azure answer, it then reports that
-- Caddy is loaded, Caddy runs that output, the store holds its desired snapshot as applied, and no
-- routing change is pending any more.
pub sync_alone-applied :
    {Output : Type 0} (services : Services Output) (answers : Answers Output)
    (checks : CheckAnswers) (r : Reconciler Output) (output : Output)
    → services.render r.renderer_cfg
        ((desired_snapshot r.world.store).routes ++ (discover answers.discover r).0)
      ≡ ok output
    → answers.load.error ≡ none
    → answers.load.taken ≡ true
    → answers.call.fault ≡ none
    → r.world.store.applied.revision ≤ r.world.store.revision
    → let o = sync_alone services answers checks plain_request r in
      (o.0.caddy_loaded ≡ true)
      × (o.1.runtime ≡ some output)
      × (o.1.world.store.applied ≡ desired_snapshot r.world.store)
      × (pending o.1.world.store ≡ false)
unfolding sync_alone sync read_previous after_reading load_prepared prepare snapshot_of
    next_generation
sync_alone-applied services answers checks r output renders took taken saved low =
    let (same, world, cfg) = discover-next answers.discover r in
    let (routes, r2) = discover answers.discover (next_generation r) in
    let snapshot = desired_snapshot r.world.store in
    let p =
      prepared answers.started snapshot (previous_of none (next_generation r)) r.cfg
        (next_generation r).generation routes in
    let rendered : services.render r2.renderer_cfg (snapshot.routes ++ routes) ≡ ok output =
      ap (λ (c : AppConfig). services.render c (snapshot.routes ++ routes)) cfg
      ∙ ap (λ (d : List RouteConfig). services.render r.renderer_cfg (snapshot.routes ++ d)) same
      ∙ renders in
    let loads =
      rendered-Loads services answers checks p
        (services.render r2.renderer_cfg (snapshot.routes ++ routes)) output r.world r2 took taken
        saved rendered world refl low in
    (
      loads.loaded,
      loads.runs.runtime,
      loads.runs.applied,
      Loads-pending output r.world.store _ loads,
    )
