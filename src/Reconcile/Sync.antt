-- ===== src/Reconcile/Sync.antt =====
-- backend/internal/reconcile/reconciler.go: the part of sync that runs under its mutex.
use caddy_reverse_proxy.Common.{
  ℕ, ◌+◌, ◌%◌, ◌^◌, true, Option, none, some, List, ◌++◌, Result, ok, err, if◌then◌else◌, length,
  is_some,
}
use caddy_reverse_proxy.Text.{Text, codes}
use caddy_reverse_proxy.Model.{RouteConfig, ReconcileResult}
use caddy_reverse_proxy.Model.Config.{AppConfig}
use caddy_reverse_proxy.Routes.Errors.{Error}
use caddy_reverse_proxy.Routes.Std.{Call}
use caddy_reverse_proxy.Routes.Store.{Snapshot, World, Outcome}
use caddy_reverse_proxy.Routes.Commit.{mark_applied}
use caddy_reverse_proxy.Reconcile.{
  Services, Answers, Commit, Request, Reconciler, new_result, finish,
}
use caddy_reverse_proxy.Reconcile.Restore.{update_for, load, restore_runtime}
use caddy_reverse_proxy.Reconcile.Prepare.{Prepared, prepare}

-- A sync between its two parts: `result`, `allRoutes`, `cfg` and `generation`.
pub record Pending : Type 0 where
  pub result : ReconcileResult
  pub routes : List RouteConfig
  pub cfg : AppConfig
  pub generation : ℕ

pub data Phase : Type 0 where
  finished : ReconcileResult → Phase
  checking : Pending → Phase

abbrev pub described : {A : Type 0} → (Error → Text) → Outcome A → Result Text A × World
described describe (ok a, w) = (ok a, w)
described describe (err e, w) = (err (describe e), w)

-- r.store.MarkApplied as a commit
unfoldable pub commit_applied : (Error → Text) → Call → Commit
commit_applied describe call snapshot w = described describe (mark_applied call snapshot w)

-- The commit that is made, if any.
unfoldable pub commit_of : (Error → Text) → Call → Request → Option Commit
unfolding commit_applied
commit_of describe call request = elim request.commit [
  | some commit ↦ some commit
  | none ↦ if request.preserve_pending_routes then none else some (commit_applied describe call)
]

abbrev pub with_error : ReconcileResult → Text → ReconcileResult
with_error result e = record result { error = e }

abbrev pub loaded_result : ReconcileResult → ℕ → ReconcileResult
loaded_result result count = record result { applied_routes = count; caddy_loaded = true }

module _ {Output : Type 0} where
  -- generation++ on a uint64
  unfoldable pub next_generation : Reconciler Output → Reconciler Output
  next_generation r = record r { generation = (r.generation + 1) % 2 ^ 64 }

  -- `previousRuntime`, or the error of its reading. It is read for a candidate only.
  unfoldable pub read_previous :
      Option AppConfig → Option (Result Text (Option Output)) → Result Text (Option Output)
  read_previous none reads = ok none
  read_previous (some cfg) none = ok none
  read_previous (some cfg) (some read) = read

  -- A sync that fails finishes while it holds the mutex.
  unfoldable pub fail_sync :
      Answers Output → ReconcileResult × Reconciler Output → ℕ → Phase × Reconciler Output
  unfolding finish
  fail_sync answers (result, r) generation =
      let (done, r') = finish answers.failed result generation r in (finished done, r')

  -- `commit(snapshot)`, if there is a commit
  abbrev pub commit_snapshot :
      Option Commit → Snapshot → Reconciler Output → Result Text (Unit {0}) × Reconciler Output
  commit_snapshot none snapshot r = (ok tt, r)
  commit_snapshot (some commit) snapshot r =
      let (result, w) = commit snapshot r.world in (result, record r { world = w })

  -- After the commit: the mutex is released, or the previous runtime restored.
  unfoldable pub after_commit :
      Services Output
      → Answers Output
      → Request
      → Prepared Output
      → Result Text (Unit {0}) × Reconciler Output
      → Phase × Reconciler Output
  unfolding fail_sync restore_runtime
  after_commit services answers request p (ok done, r) = (
    checking (record {
      result = loaded_result p.result (length p.routes);
      routes = p.routes;
      cfg = p.cfg;
      generation = p.generation;
    }),
    r,
  )
  after_commit services answers request p (err e, r) =
      fail_sync answers
        (restore_runtime services answers request p.previous
          (with_error (loaded_result p.result (length p.routes))
            (codes "persist applied configuration: " ++ e))
          r)
        p.generation

  -- After the load.
  unfoldable pub after_load :
      Services Output
      → Answers Output
      → Request
      → Prepared Output
      → Option Text × Reconciler Output
      → Phase × Reconciler Output
  unfolding after_commit commit_of fail_sync restore_runtime
  after_load services answers request p (none, r) =
      after_commit services answers request p
        (commit_snapshot (commit_of services.describe answers.call request) p.snapshot r)
  after_load services answers request p (some e, r) =
      fail_sync answers
        (if is_some request.candidate
          then restore_runtime services answers request p.previous (with_error p.result e) r
          else (with_error p.result e, r))
        p.generation

  unfoldable pub after_render :
      Services Output
      → Answers Output
      → Request
      → Prepared Output
      → Result Text Output
      → Reconciler Output
      → Phase × Reconciler Output
  unfolding after_load load fail_sync update_for
  after_render services answers request p (ok output) r =
      after_load services answers request p (load answers.load output r)
  after_render services answers request p (err e) r =
      fail_sync answers
        (with_error p.result e, update_for services request.candidate p.previous.cfg r) p.generation

  unfoldable pub load_prepared :
      Services Output
      → Answers Output
      → Request
      → Prepared Output × Reconciler Output
      → Phase × Reconciler Output
  unfolding after_render
  load_prepared services answers request (p, r) =
      after_render services answers request p (services.render r.renderer_cfg p.routes) r

  -- After the previous runtime configuration has been read.
  unfoldable pub after_reading :
      Services Output
      → Answers Output
      → Request
      → Result Text (Option Output)
      → Reconciler Output
      → Phase × Reconciler Output
  unfolding prepare load_prepared fail_sync new_result
  after_reading services answers request (ok runtime) r =
      load_prepared services answers request (prepare services answers request runtime r)
  after_reading services answers request (err e) r =
      fail_sync answers
        (
          with_error (new_result answers.started r.cfg.profile 0)
              (codes "read previous runtime configuration: " ++ e),
          r,
        )
        r.generation

  -- sync up to the release of its mutex.
  unfoldable pub sync :
      Services Output → Answers Output → Request → Reconciler Output → Phase × Reconciler Output
  unfolding next_generation read_previous after_reading
  sync services answers request r =
      after_reading services answers request (read_previous request.candidate answers.reads)
        (next_generation r)
