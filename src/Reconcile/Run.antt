-- ===== src/Reconcile/Run.antt =====
-- backend/internal/reconcile/reconciler.go: the ways to start a sync, and Run.
use caddy_reverse_proxy.Common.{
  true, false, Option, none, some, List, [], ◌∷◌, Result, ok, err, if◌then◌else◌,
}
use caddy_reverse_proxy.Common.Int.{ℤ, pos, lt_ℤ}
use caddy_reverse_proxy.Text.{Text, codes}
use caddy_reverse_proxy.Model.{ReconcileResult}
use caddy_reverse_proxy.Model.Config.{AppConfig}
use caddy_reverse_proxy.Routes.Store.{World}
use caddy_reverse_proxy.Reconcile.{Services, Answers, Commit, Request, Reconciler}
use caddy_reverse_proxy.Reconcile.Sync.{Phase, finished, checking, sync}
use caddy_reverse_proxy.Reconcile.Checks.{CheckAnswers, check}

-- Sync
abbrev pub plain_request : Request
plain_request = record { preserve_pending_routes = false; candidate = none; commit = none }

-- SyncWithoutPendingRoutingChanges
abbrev pub applied_request : Request
applied_request = record { preserve_pending_routes = true; candidate = none; commit = none }

-- SyncWithCommit
abbrev pub commit_request : Option AppConfig → Commit → Request
commit_request cfg commit = record {
  preserve_pending_routes = false;
  candidate = cfg;
  commit = some commit;
}

abbrev ignore_snapshot : (World → Result Text (Unit {0}) × World) → Commit
ignore_snapshot commit snapshot w = commit w

-- SyncConfigWithCommit
abbrev pub config_request : AppConfig → (World → Result Text (Unit {0}) × World) → Request
config_request cfg commit = record {
  preserve_pending_routes = true;
  candidate = some cfg;
  commit = some (ignore_snapshot commit);
}

-- The interval of Run in seconds.
unfoldable pub run_interval : AppConfig → ℤ
run_interval cfg =
    if lt_ℤ cfg.reconcile_interval_seconds 1 then pos 30 else cfg.reconcile_interval_seconds

-- The answer of WithRuntimeConfig. `cancelled` is the error of the context, `reads` the loader's
-- Config, if it has one.
unfoldable pub with_runtime_config :
    {Output : Type 0}
    → Option Text
    → Option (Result Text Output)
    → (Output → Result Text (Unit {0}))
    → Result Text (Unit {0})
with_runtime_config (some e) reads inspect = err e
with_runtime_config none none inspect = err (codes "active Caddy configuration is unavailable")
with_runtime_config none (some (err e)) inspect = err e
with_runtime_config none (some (ok output)) inspect = inspect output

module _ {Output : Type 0} where
  abbrev pub check_phase :
      CheckAnswers → Phase × Reconciler Output → ReconcileResult × Reconciler Output
  check_phase answers (finished result, r) = (result, r)
  check_phase answers (checking p, r) = check answers p r

  -- A sync from start to end, when nothing happens between its parts.
  unfoldable pub sync_alone :
      Services Output
      → Answers Output
      → CheckAnswers
      → Request
      → Reconciler Output
      → ReconcileResult × Reconciler Output
  unfolding sync check
  sync_alone services answers checks request r =
      check_phase checks (sync services answers request r)

  -- Run: a sync at once, and one at each tick.
  unfoldable pub run_ticks :
      Services Output → List (Answers Output × CheckAnswers) → Reconciler Output → Reconciler Output
  unfolding sync_alone
  run_ticks services [] r = r
  run_ticks services ((answers, checks) ∷ ticks) r =
      run_ticks services ticks (sync_alone services answers checks applied_request r).1
