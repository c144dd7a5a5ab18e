-- ===== src/Reconcile/Rollback.antt =====
-- A sync that fails leaves the configuration that it found.
use caddy_reverse_proxy.Common.{
  ℕ, ◌≡◌, refl, sym, subst, ◌∙◌, inl, inr, Bool, true, Option, none, some, List, ◌++◌, Result, ok,
  err, eqb, Bool-cases, length,
}
use caddy_reverse_proxy.Text.{Text, codes}
use caddy_reverse_proxy.Model.{RouteConfig, ReconcileResult}
use caddy_reverse_proxy.Model.Config.{AppConfig}
use caddy_reverse_proxy.Routes.Store.{Snapshot}
use caddy_reverse_proxy.Reconcile.{
  Services, Answers, Commit, Request, Reconciler, new_result, update_config, finish,
}
use caddy_reverse_proxy.Reconcile.Sync.{
  Phase, finished, next_generation, read_previous, fail_sync, commit_of, commit_snapshot,
  with_error, loaded_result, after_commit, after_load, after_render, load_prepared, after_reading,
  sync,
}
use caddy_reverse_proxy.Reconcile.Prepare.{
  Prepared, previous_of, discover, snapshot_of, prepare, prepared,
}
use caddy_reverse_proxy.Reconcile.Restore.{update_for, load, rollback_output, restore_runtime}

module _ {Output : Type 0} where
  -- The configuration of the reconciler and of its renderer is `cfg`, and Caddy runs `output`.
  abbrev pub Holds : AppConfig → Option Output → Reconciler Output → Type 0
  Holds cfg output r = (r.cfg ≡ cfg) × (r.renderer_cfg ≡ cfg) × (r.runtime ≡ output)

  finish-Holds :
      (cfg : AppConfig) (output : Option Output) (now : ℕ) (result : ReconcileResult) (g : ℕ)
      (r : Reconciler Output)
      → Holds cfg output r
      → Holds cfg output (finish now result g r).1
  unfolding finish
  finish-Holds cfg output now result g r h = elim (Bool-cases (eqb r.generation g)) [
    | inl e ↦ rw e h
    | inr e ↦ rw e h
  ]

  -- If the first part of a sync fails, the state holds.
  pub record Fails (cfg : AppConfig) (output : Option Output) (o : Phase × Reconciler Output)
      : Type 0 where
    pub at : (result : ReconcileResult) → o.0 ≡ finished result → Holds cfg output o.1

  fail_sync-Fails :
      (cfg : AppConfig) (output : Option Output) (answers : Answers Output)
      (failed : ReconcileResult × Reconciler Output) (g : ℕ)
      → Holds cfg output failed.1
      → Fails cfg output (fail_sync answers failed g)
  unfolding fail_sync
  fail_sync-Fails cfg output answers (result, r) g h = record {
    at = λ _ _. finish-Holds cfg output answers.failed result g r h;
  }

  module _ (services : Services Output) (answers : Answers Output)
      (updates : services.is_config_updater ≡ true) (preserve : Bool) (candidate : AppConfig)
      (commit : Option Commit) where
    abbrev pub request : Request
    request = record {
      preserve_pending_routes = preserve;
      candidate = some candidate;
      commit = commit;
    }

    update_config-Holds :
        (cfg : AppConfig) {output : Option Output} (r : Reconciler Output)
        → r.runtime ≡ output
        → Holds cfg output (update_config services cfg r)
    unfolding update_config
    update_config-Holds cfg r h = (refl, rw updates refl, h)

    module _ (result : ReconcileResult) (cfg cfg' : AppConfig) (applied snapshot : Snapshot)
        (discovered routes : List RouteConfig) (g : ℕ) (output : Output)
        (retaken : answers.reload.taken ≡ true) where
      -- Everything that a sync has prepared, its previous state with what Caddy ran.
      abbrev ready : Prepared Output
      ready = record {
        result = result;
        cfg = cfg';
        previous = record {
          cfg = cfg;
          applied = applied;
          discovered = discovered;
          runtime = some output;
        };
        snapshot = snapshot;
        routes = routes;
        generation = g;
      }

      restore_runtime-Holds :
          (failed : ReconcileResult) (r : Reconciler Output)
          → Holds cfg
              (some output)
              (restore_runtime services answers request ready.previous failed r).1
      unfolding restore_runtime update_for rollback_output load update_config
      restore_runtime-Holds failed r =
          (rw retaken refl, rw retaken (rw updates refl), rw retaken refl)

      after_commit-Fails :
          (committed : Result Text (Unit {0})) (r : Reconciler Output)
          → Fails cfg (some output) (after_commit services answers request ready (committed, r))
      unfolding after_commit
      after_commit-Fails (ok done) r = record { at = λ failed e. cc }
      after_commit-Fails (err e) r =
          let failed =
            with_error (loaded_result result (length routes))
              (codes "persist applied configuration: " ++ e) in
          fail_sync-Fails cfg (some output) answers
            (restore_runtime services answers request ready.previous failed r) g
            (restore_runtime-Holds failed r)

      after_load-Fails :
          (error : Option Text) (r : Reconciler Output)
          → Fails cfg (some output) (after_load services answers request ready (error, r))
      unfolding after_load
      after_load-Fails none r =
          let committed =
            commit_snapshot (commit_of services.describe answers.call request) snapshot r in
          after_commit-Fails committed.0 committed.1
      after_load-Fails (some e) r =
          let failed = with_error result e in
          fail_sync-Fails cfg (some output) answers
            (restore_runtime services answers request ready.previous failed r) g
            (restore_runtime-Holds failed r)

      after_render-Fails :
          (rendered : Result Text Output) (r : Reconciler Output)
          → r.runtime ≡ some output
          → Fails cfg (some output) (after_render services answers request ready rendered r)
      unfolding after_render update_for
      after_render-Fails (ok new) r h =
          let loaded = load answers.load new r in after_load-Fails loaded.0 loaded.1
      after_render-Fails (err e) r h =
          fail_sync-Fails cfg (some output) answers
            (with_error result e, update_config services cfg r) g (update_config-Holds cfg r h)

    discover-runtime :
        (answer : Option (Result Text (List RouteConfig))) (r : Reconciler Output)
        → (discover answer r).1.runtime ≡ r.runtime
    unfolding discover
    discover-runtime none r = refl
    discover-runtime (some (ok routes)) r = refl
    discover-runtime (some (err e)) r = refl

    module _ (output : Output) (retaken : answers.reload.taken ≡ true) where
      after_reading-Fails :
          (read : Result Text (Option Output)) (r : Reconciler Output)
          → r.runtime ≡ some output
          → r.renderer_cfg ≡ r.cfg
          → ((found : Option Output) → read ≡ ok found → found ≡ some output)
          → Fails r.cfg (some output) (after_reading services answers request read r)
      unfolding after_reading load_prepared prepare update_config
      after_reading-Fails (err e) r h k f =
          fail_sync-Fails r.cfg (some output) answers
            (
              with_error (new_result answers.started r.cfg.profile 0)
                  (codes "read previous runtime configuration: " ++ e),
              r,
            )
            r.generation (refl, k, h)
      after_reading-Fails (ok found) r h k f =
          let r1 = update_config services candidate r in
          let (routes, r2) = discover answers.discover r1 in
          let snapshot = snapshot_of preserve r1 in
          let p =
            prepared answers.started snapshot (previous_of (some output) r) candidate r.generation
              routes in
          subst
            (λ (o : Option Output).
              Fails r.cfg (some output) (after_reading services answers request (ok o) r))
            (sym (f found refl))
            (after_render-Fails p.result r.cfg candidate r.world.store.applied snapshot
              r.last_discovered p.routes r.generation output retaken
              (services.render r2.renderer_cfg p.routes) r2
              (discover-runtime answers.discover r1 ∙ h))

-- A sync with a new configuration that fails before its checks leaves the gateway as it was: the
-- configuration of the reconciler and of its renderer, and what Caddy runs. It fails when the running
-- configuration cannot be read, when the routes cannot be rendered or loaded, or when the commit fails.
-- The renderer is to accept configurations and to hold that of the reconciler, the loader to read
-- what Caddy runs or to fail, and Caddy to take the old configuration when it is loaded again.
pub sync-finished_restores :
    {Output : Type 0} (services : Services Output) (answers : Answers Output) (preserve : Bool)
    (candidate : AppConfig) (commit : Option Commit) (r : Reconciler Output) (output : Output)
    (read : Result Text (Option Output)) (result : ReconcileResult)
    → services.is_config_updater ≡ true
    → r.renderer_cfg ≡ r.cfg
    → r.runtime ≡ some output
    → answers.reads ≡ some read
    → ((found : Option Output) → read ≡ ok found → found ≡ some output)
    → answers.reload.taken ≡ true
    → (sync services answers
        (record { preserve_pending_routes = preserve; candidate = some candidate; commit = commit })
        r).0
      ≡ finished result
    → let r' =
        (sync services answers
          (record {
            preserve_pending_routes = preserve;
            candidate = some candidate;
            commit = commit;
          })
          r).1 in
      (r'.cfg ≡ r.cfg) × (r'.renderer_cfg ≡ r.cfg) × (r'.runtime ≡ some output)
unfolding sync next_generation read_previous
sync-finished_restores {Output} services answers preserve candidate commit r output read result
      updates k h reads f retaken failed =
    let fails =
      subst
        (λ (o : Option (Result Text (Option Output))). Fails r.cfg (some output) (
          after_reading services answers
            (request services answers updates preserve candidate commit)
            (read_previous (some candidate) o) (next_generation r)))
        (sym reads)
        (after_reading-Fails services answers updates preserve candidate commit output retaken read
          (next_generation r) h k f) in
    fails.at result failed
