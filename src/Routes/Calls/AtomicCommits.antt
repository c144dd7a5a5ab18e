-- ===== src/Routes/Calls/AtomicCommits.antt =====
-- Commits, MarkApplied and PersistStaged that fail have changed nothing.
use caddy_reverse_proxy.Common.{◌≡◌, refl, ap, List, Result, ok, err, false, ltb, ◌||◌}
use caddy_reverse_proxy.Model.{RouteConfig}
use caddy_reverse_proxy.Routes.Errors.{Error, stale_revision}
use caddy_reverse_proxy.Routes.Std.{Call}
use caddy_reverse_proxy.Routes.Store.{Snapshot, Store, World, Outcome, set_store, save_locked}
use caddy_reverse_proxy.Routes.Commit.{mark_applied, finish_applied, finish_persist, next_revision}
use caddy_reverse_proxy.Routes.Operations.{stage_rebuilt}
use caddy_reverse_proxy.Routes.Calls.Atomic.{
  IsAtomic, IsAtomic-if, IsAtomic-ok, IsAtomic-err, save_locked-IsAtomic, restored-IsAtomic,
}

finish_applied-IsAtomic :
    (w : World) (snapshot : Snapshot) (o : Outcome (Unit {0}))
    → IsAtomic (set_store w (record w.store { applied = snapshot })) o
    → IsAtomic w (finish_applied w.store.applied o)
finish_applied-IsAtomic w snapshot (ok u, w') h =
    IsAtomic-ok w u (set_store w' (record w'.store { staged = false }))
finish_applied-IsAtomic w snapshot (err e, w') h = record {
  at = λ _ _.
      let (same, disk) = h.at e refl in
      (ap (λ (s : Store). record s { applied = w.store.applied }) same, disk);
}

pub mark_applied-IsAtomic :
    (call : Call) (snapshot : Snapshot) (w : World) → IsAtomic w (mark_applied call snapshot w)
unfolding mark_applied
mark_applied-IsAtomic call snapshot w =
    let saved : Outcome (Unit {0}) =
      save_locked call (set_store w (record w.store { applied = snapshot })) in
    IsAtomic-if w
      (ltb w.store.revision snapshot.revision || ltb snapshot.revision w.store.applied.revision)
      (err stale_revision, w) (finish_applied w.store.applied saved) (IsAtomic-err w stale_revision)
      (finish_applied-IsAtomic w snapshot saved (save_locked-IsAtomic call _))

pub finish_persist-IsAtomic :
    (w : World) (o : Outcome (Unit {0})) → IsAtomic w o → IsAtomic w (finish_persist o)
finish_persist-IsAtomic w (ok u, w') h =
    IsAtomic-ok w u (set_store w' (record w'.store { staged = false }))
finish_persist-IsAtomic w (err e, w') h = h

pub stage_rebuilt-IsAtomic :
    (w : World) (s : Store) (r : Result Error (List RouteConfig))
    → s.path ≡ w.store.path
    → IsAtomic w (stage_rebuilt w s r)
unfolding stage_rebuilt
stage_rebuilt-IsAtomic w s (err e) h = restored-IsAtomic w e s w.disk h refl
stage_rebuilt-IsAtomic w s (ok routes) h =
    IsAtomic-ok w tt
      (set_store w (record s { routes = routes; revision = next_revision s.revision }))
