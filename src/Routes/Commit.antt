-- ===== src/Routes/Commit.antt =====
-- backend/internal/routes/resources.go and store.go: commitLocked and its callers' error paths,
-- MarkApplied and PersistStaged.
use caddy_reverse_proxy.Common.{
  ℕ, ◌+◌, ◌%◌, ◌^◌, false, ◌||◌, List, Result, ok, err, ltb, if◌then◌else◌,
}
use caddy_reverse_proxy.Model.{RouteConfig}
use caddy_reverse_proxy.Routes.Errors.{Error, stale_revision}
use caddy_reverse_proxy.Routes.Std.{Std, Call}
use caddy_reverse_proxy.Routes.Compile.{rebuild_routes}
use caddy_reverse_proxy.Routes.Store.{
  Snapshot, Store, StoreSnapshot, World, Outcome, snapshot_locked, restore_locked, set_store,
  save_locked,
}

-- `if err != nil { s.restoreLocked(snapshot); return err }`
unfoldable pub or_restore : {A : Type 0} → StoreSnapshot → Outcome A → Outcome A
or_restore snapshot (ok a, w) = (ok a, w)
or_restore snapshot (err e, w) = (err e, set_store w (restore_locked snapshot w.store))

-- `if err != nil { return err }` before anything is written
unfoldable pub checked : {X A : Type 0} → World → Result Error X → (X → Outcome A) → Outcome A
checked w (ok x) k = k x
checked w (err e) k = (err e, w)

-- `return value, err` of a caller
unfoldable pub returning : {A B : Type 0} → B → Outcome A → Outcome B
returning b (ok a, w) = (ok b, w)
returning b (err e, w) = (err e, w)

-- revision++ on a uint64
abbrev pub next_revision : ℕ → ℕ
next_revision n = (n + 1) % 2 ^ 64

-- commitLocked after its rebuild
unfoldable pub commit_rebuilt :
    Call → StoreSnapshot → Result Error (List RouteConfig) → World → Outcome (Unit {0})
commit_rebuilt call snapshot (err e) w = (err e, set_store w (restore_locked snapshot w.store))
commit_rebuilt call snapshot (ok routes) w =
    let s = record w.store { routes = routes; revision = next_revision w.store.revision } in
    if s.staged
    then (ok tt, set_store w s)
    else or_restore snapshot (save_locked call (set_store w s))

module _ (std : Std) where
  abbrev pub rebuild_store : Store → Result Error (List RouteConfig)
  rebuild_store s = rebuild_routes std s.listeners s.backend_pools s.routing_rules

  unfoldable pub commit_locked : Call → StoreSnapshot → World → Outcome (Unit {0})
  commit_locked call snapshot w = commit_rebuilt call snapshot (rebuild_store w.store) w

  -- A method that returns at once on an error of its change, and commits the change otherwise. Such
  -- a change writes to the store only when it succeeds.
  unfoldable pub commit_change : {A : Type 0} → Call → World → Result Error (A × Store) → Outcome A
  commit_change call w (err e) = (err e, w)
  commit_change call w (ok (a, s)) =
      returning a (commit_locked call (snapshot_locked w.store) (set_store w s))

  -- A method that restores its snapshot on an error of its change, which may have written before.
  unfoldable pub commit_or_restore :
      {A : Type 0} → Call → World → Result Error A × Store → Outcome A
  commit_or_restore call w (err e, s) =
      (err e, set_store w (restore_locked (snapshot_locked w.store) s))
  commit_or_restore call w (ok a, s) =
      returning a (commit_locked call (snapshot_locked w.store) (set_store w s))

-- s.MarkApplied
abbrev pub finish_applied : Snapshot → Outcome (Unit {0}) → Outcome (Unit {0})
finish_applied previous (ok u, w) = (ok u, set_store w (record w.store { staged = false }))
finish_applied previous (err e, w) = (err e, set_store w (record w.store { applied = previous }))

unfoldable pub mark_applied : Call → Snapshot → World → Outcome (Unit {0})
mark_applied call snapshot w =
    if ltb w.store.revision snapshot.revision || ltb snapshot.revision w.store.applied.revision
    then (err stale_revision, w)
    else finish_applied w.store.applied
        (save_locked call (set_store w (record w.store { applied = snapshot })))

abbrev pub finish_persist : Outcome (Unit {0}) → Outcome (Unit {0})
finish_persist (ok u, w) = (ok u, set_store w (record w.store { staged = false }))
finish_persist (err e, w) = (err e, w)

unfoldable pub persist_staged : Call → World → Outcome (Unit {0})
persist_staged call w = if w.store.staged then finish_persist (save_locked call w) else (ok tt, w)
