-- ===== src/Reconcile/System/Numbers.antt =====
-- The generation through the steps of a sync.
use caddy_reverse_proxy.Common.{
  ℕ, ◌+◌, ◌%◌, ◌^◌, ◌<◌, ◌≡◌, refl, ◌∙◌, inl, inr, Bool, true, false, Option, none, some, List,
  ◌++◌, Result, ok, err, eqb, if◌then◌else◌, arith, Bool-cases, is_some, length,
}
use caddy_reverse_proxy.Text.{Text, codes}
use caddy_reverse_proxy.Model.{RouteConfig, ReconcileResult}
use caddy_reverse_proxy.Model.Config.{AppConfig}
use caddy_reverse_proxy.Routes.Store.{Snapshot}
use caddy_reverse_proxy.Reconcile.{
  Services, LoadAnswer, Answers, Commit, Request, Reconciler, new_result, update_config, finish,
}
use caddy_reverse_proxy.Reconcile.Sync.{
  Pending, Phase, checking, next_generation, read_previous, fail_sync, loaded_result, commit_of,
  commit_snapshot, with_error, after_commit, after_load, after_render, load_prepared, after_reading,
  sync,
}
use caddy_reverse_proxy.Reconcile.Prepare.{Prepared, use_candidate, discover, prepare}
use caddy_reverse_proxy.Reconcile.Restore.{
  Previous, update_for, load, reload, rollback_output, restore_runtime,
}
use caddy_reverse_proxy.Reconcile.Checks.{CheckAnswers, with_health, with_azure, check}

module _ {Output : Type 0} where
  -- The generation is `n` after the first part of a sync, and the sync is numbered `n` if it goes on.
  pub record IsNumbered (n : ℕ) (o : Phase × Reconciler Output) : Type 0 where
    pub generation : o.1.generation ≡ n
    pub number : (p : Pending) → o.0 ≡ checking p → p.generation ≡ n

  finish-generation :
      (now : ℕ) (result : ReconcileResult) (g : ℕ) (r : Reconciler Output)
      → (finish now result g r).1.generation ≡ r.generation
  unfolding finish
  finish-generation now result g r = elim (Bool-cases (eqb r.generation g)) [
    | inl e ↦ rw e refl
    | inr e ↦ rw e refl
  ]

  fail_sync-IsNumbered :
      (answers : Answers Output) (failed : ReconcileResult × Reconciler Output) (g n : ℕ)
      → failed.1.generation ≡ n
      → IsNumbered n (fail_sync answers failed g)
  unfolding fail_sync
  fail_sync-IsNumbered answers (result, r) g n h = record {
    generation = finish-generation answers.failed result g r ∙ h;
    number = λ p e. cc;
  }

  update_for-generation :
      (services : Services Output) (candidate : Option AppConfig) (cfg : AppConfig)
      (r : Reconciler Output)
      → (update_for services candidate cfg r).generation ≡ r.generation
  unfolding update_for update_config
  update_for-generation services none cfg r = refl
  update_for-generation services (some candidate) cfg r = refl

  load-generation :
      (answer : LoadAnswer) (output : Output) (r : Reconciler Output)
      → (load answer output r).1.generation ≡ r.generation
  unfolding load
  load-generation answer output r = elim (Bool-cases answer.taken) [
    | inl e ↦ rw e refl
    | inr e ↦ rw e refl
  ]

  reload-generation :
      (answer : LoadAnswer) (count : ℕ) (result : ReconcileResult) (output : Result Text Output)
      (r : Reconciler Output)
      → (reload answer count result output r).1.generation ≡ r.generation
  reload-generation answer count result (ok output) r = load-generation answer output r
  reload-generation answer count result (err e) r = refl

  restore_runtime-generation :
      (services : Services Output) (answers : Answers Output) (request : Request)
      (previous : Previous Output) (result : ReconcileResult) (r : Reconciler Output)
      → (restore_runtime services answers request previous result r).1.generation ≡ r.generation
  unfolding restore_runtime
  restore_runtime-generation services answers request previous result r =
      let r' = update_for services request.candidate previous.cfg r in
      reload-generation answers.reload _ result (rollback_output services previous r') r'
      ∙ update_for-generation services request.candidate previous.cfg r

  commit_snapshot-generation :
      (commit : Option Commit) (snapshot : Snapshot) (r : Reconciler Output)
      → (commit_snapshot commit snapshot r).1.generation ≡ r.generation
  commit_snapshot-generation none snapshot r = refl
  commit_snapshot-generation (some commit) snapshot r = refl

  discover-generation :
      (answer : Option (Result Text (List RouteConfig))) (r : Reconciler Output)
      → (discover answer r).1.generation ≡ r.generation
  unfolding discover
  discover-generation none r = refl
  discover-generation (some (ok routes)) r = refl
  discover-generation (some (err e)) r = refl

  use_candidate-generation :
      (services : Services Output) (candidate : Option AppConfig) (r : Reconciler Output)
      → (use_candidate services candidate r).generation ≡ r.generation
  unfolding update_config
  use_candidate-generation services none r = refl
  use_candidate-generation services (some candidate) r = refl

  module _ (services : Services Output) (answers : Answers Output) (request : Request) where
    module _ (p : Prepared Output) where
      after_commit-IsNumbered :
          (committed : Result Text (Unit {0})) (r : Reconciler Output)
          → r.generation ≡ p.generation
          → IsNumbered p.generation (after_commit services answers request p (committed, r))
      unfolding after_commit
      after_commit-IsNumbered (ok done) r h = record { generation = h; number = λ q e. cc }
      after_commit-IsNumbered (err e) r h =
          let failed =
            with_error (loaded_result p.result (length p.routes))
              (codes "persist applied configuration: " ++ e) in
          fail_sync-IsNumbered answers
            (restore_runtime services answers request p.previous failed r) p.generation p.generation
            (restore_runtime-generation services answers request p.previous failed r ∙ h)

      restored-generation :
          (b : Bool) (failed : ReconcileResult) (r : Reconciler Output)
          → (if b
              then restore_runtime services answers request p.previous failed r
              else (failed, r)).1.generation
            ≡ r.generation
      restored-generation true failed r =
          restore_runtime-generation services answers request p.previous failed r
      restored-generation false failed r = refl

      after_load-IsNumbered :
          (error : Option Text) (r : Reconciler Output)
          → r.generation ≡ p.generation
          → IsNumbered p.generation (after_load services answers request p (error, r))
      unfolding after_load
      after_load-IsNumbered none r h =
          let commit = commit_of services.describe answers.call request in
          let (committed, r') = commit_snapshot commit p.snapshot r in
          after_commit-IsNumbered committed r' (commit_snapshot-generation commit p.snapshot r ∙ h)
      after_load-IsNumbered (some e) r h =
          let b = is_some request.candidate in
          let failed = with_error p.result e in
          fail_sync-IsNumbered answers
            (if b
              then restore_runtime services answers request p.previous failed r
              else (failed, r))
            p.generation p.generation (restored-generation b failed r ∙ h)

      after_render-IsNumbered :
          (rendered : Result Text Output) (r : Reconciler Output)
          → r.generation ≡ p.generation
          → IsNumbered p.generation (after_render services answers request p rendered r)
      unfolding after_render
      after_render-IsNumbered (ok output) r h =
          let loaded = load answers.load output r in
          after_load-IsNumbered loaded.0 loaded.1 (load-generation answers.load output r ∙ h)
      after_render-IsNumbered (err e) r h =
          fail_sync-IsNumbered answers
            (with_error p.result e, update_for services request.candidate p.previous.cfg r)
            p.generation p.generation
            (update_for-generation services request.candidate p.previous.cfg r ∙ h)

    after_reading-IsNumbered :
        (read : Result Text (Option Output)) (r : Reconciler Output)
        → IsNumbered r.generation (after_reading services answers request read r)
    unfolding after_reading load_prepared prepare
    after_reading-IsNumbered (err e) r =
        fail_sync-IsNumbered answers
          (
            with_error (new_result answers.started r.cfg.profile 0)
                (codes "read previous runtime configuration: " ++ e),
            r,
          )
          r.generation r.generation refl
    after_reading-IsNumbered (ok runtime) r =
        let (p, r2) = prepare services answers request runtime r in
        let r1 = use_candidate services request.candidate r in
        after_render-IsNumbered p (services.render r2.renderer_cfg p.routes) r2 (
          discover-generation answers.discover r1
          ∙ use_candidate-generation services request.candidate r)

    pub sync-IsNumbered :
        (r : Reconciler Output)
        → IsNumbered ((r.generation + 1) % 2 ^ 64) (sync services answers request r)
    unfolding sync next_generation
    sync-IsNumbered r =
        after_reading-IsNumbered (read_previous request.candidate answers.reads) (next_generation r)

  pub check-stale :
      (answers : CheckAnswers) (p : Pending) (r : Reconciler Output)
      → p.generation < r.generation
      → (check answers p r).1 ≡ r
  unfolding check finish
  check-stale answers p r h = elim (Bool-cases (eqb r.generation p.generation)) [
    | inl e ↦ absurd (ground arith)
    | inr e ↦ rw e refl
  ]

  pub check-generation :
      (answers : CheckAnswers) (p : Pending) (r : Reconciler Output)
      → (check answers p r).1.generation ≡ r.generation
  unfolding check
  check-generation answers p r =
      finish-generation answers.finished
        (with_azure answers.azure answers.cancelled p.cfg p.routes
          (with_health answers.check p.routes p.result))
        p.generation r
