-- ===== src/Routes/Calls/Atomic.antt =====
-- Outcomes that leave the world as it was if they are errors: one lemma for each way to end a method.
use caddy_reverse_proxy.Common.{
  ◌≡◌, refl, ap, List, [], Result, ok, err, arith, Bool, true, false, if◌then◌else◌,
}
use caddy_reverse_proxy.Text.{◌==◌}
use caddy_reverse_proxy.Persistence.{Fault, Disk, write_json}
use caddy_reverse_proxy.Persistence.Laws.{write_json-err}
use caddy_reverse_proxy.Model.{RouteConfig}
use caddy_reverse_proxy.Routes.Errors.{Error}
use caddy_reverse_proxy.Routes.Std.{Std, Call}
use caddy_reverse_proxy.Routes.Store.{
  Content, payload, file_of_store, Store, World, Outcome, set_store, snapshot_locked,
  restore_locked, with_save_error, write_store, save_locked,
}
use caddy_reverse_proxy.Routes.Commit.{
  checked, or_restore, returning, commit_rebuilt, commit_locked, commit_change, commit_or_restore,
  rebuild_store, next_revision,
}

abbrev pub Unchanged : World → World → Type 0
Unchanged w w' = (w'.store ≡ w.store) × (w'.disk.target ≡ w.disk.target)

-- If the outcome is an error, its world is that before the call.
pub record IsAtomic {A : Type 0} (w : World) (o : Outcome A) : Type 0 where
  pub at : (e : Error) → o.0 ≡ err e → Unchanged w o.1

restore_locked-snapshot_locked :
    (s s' : Store) → s'.path ≡ s.path → restore_locked (snapshot_locked s) s' ≡ s
unfolding restore_locked snapshot_locked
restore_locked-snapshot_locked s s' h = ap (λ q. record s { path = q }) h

saved-err :
    (r : Result Fault (Unit {0})) {e : Error}
    → with_save_error r ≡ err e
    → (f : Fault) × (r ≡ err f)
saved-err (ok u) h = cc
saved-err (err f) h = (f, refl)

pub IsAtomic-if :
    {A : Type 0} (w : World) (b : Bool) (x y : Outcome A)
    → IsAtomic w x
    → IsAtomic w y
    → IsAtomic w (if b then x else y)
IsAtomic-if w true x y h k = h
IsAtomic-if w false x y h k = k

pub IsAtomic-ok : {A : Type 0} (w : World) (a : A) (w' : World) → IsAtomic w (ok a, w')
IsAtomic-ok w a w' = record { at = λ e h. cc }

pub IsAtomic-err : {A : Type 0} (w : World) (e : Error) → IsAtomic {A = A} w (err e, w)
IsAtomic-err w e = record { at = λ _ _. (refl, refl) }

write_store-IsAtomic : (call : Call) (w : World) → IsAtomic w (write_store call w)
unfolding write_store
write_store-IsAtomic call w = record {
  at = λ e h.
      let file = payload (file_of_store w.store) in
      let (f, failed) = saved-err (write_json call.fault file w.disk).0 h in
      (refl, write_json-err call.fault file w.disk failed);
}

pub save_locked-IsAtomic : (call : Call) (w : World) → IsAtomic w (save_locked call w)
unfolding save_locked
save_locked-IsAtomic call w =
    IsAtomic-if w (w.store.path == []) _ _ (IsAtomic-ok w tt w) (write_store-IsAtomic call w)

pub save_locked-store : (call : Call) (w : World) → (save_locked call w).1.store ≡ w.store
unfolding save_locked
save_locked-store call w = ground arith

-- A restore of the snapshot that was taken of `w`.
pub restored-IsAtomic :
    {A : Type 0} (w : World) (e : Error) (s : Store) (disk : Disk Content)
    → s.path ≡ w.store.path
    → disk.target ≡ w.disk.target
    → IsAtomic {A = A} w
        (err e, record { store = restore_locked (snapshot_locked w.store) s; disk = disk })
restored-IsAtomic w e s disk h k = record {
  at = λ _ _. (restore_locked-snapshot_locked w.store s h, k);
}

or_restore-IsAtomic :
    {A : Type 0} (w : World) (o : Outcome A)
    → o.1.store.path ≡ w.store.path
    → ((e : Error) → o.0 ≡ err e → o.1.disk.target ≡ w.disk.target)
    → IsAtomic w (or_restore (snapshot_locked w.store) o)
unfolding or_restore
or_restore-IsAtomic w (ok a, w') h k = IsAtomic-ok w a w'
or_restore-IsAtomic w (err e, w') h k = restored-IsAtomic w e w'.store w'.disk h (k e refl)

pub returning-IsAtomic :
    {A B : Type 0} (w : World) (b : B) (o : Outcome A) → IsAtomic w o → IsAtomic w (returning b o)
unfolding returning
returning-IsAtomic w b (ok a, w') h = IsAtomic-ok w b w'
returning-IsAtomic w b (err e, w') h = record { at = λ _ _. h.at e refl }

commit_rebuilt-IsAtomic :
    (call : Call) (w : World) (r : Result Error (List RouteConfig)) (s : Store)
    → s.path ≡ w.store.path
    → IsAtomic w (commit_rebuilt call (snapshot_locked w.store) r (set_store w s))
unfolding commit_rebuilt
commit_rebuilt-IsAtomic call w (err e) s h = restored-IsAtomic w e s w.disk h refl
commit_rebuilt-IsAtomic call w (ok routes) s h =
    let s' = record s { routes = routes; revision = next_revision s.revision } in
    IsAtomic-if w s.staged _ _ (IsAtomic-ok w tt (set_store w s')) (
      or_restore-IsAtomic w (save_locked call (set_store w s')) (rw save_locked-store h)
        (λ e failed. ((save_locked-IsAtomic call (set_store w s')).at e failed).1))

module _ (std : Std) where
  pub commit_change-IsAtomic :
      {A : Type 0} (call : Call) (w : World) (r : Result Error (A × Store))
      → ((a : A) (s : Store) → r ≡ ok (a, s) → s.path ≡ w.store.path)
      → IsAtomic w (commit_change std call w r)
  unfolding commit_change commit_locked
  commit_change-IsAtomic call w (err e) h = IsAtomic-err w e
  commit_change-IsAtomic call w (ok (a, s)) h =
      returning-IsAtomic w a _ (commit_rebuilt-IsAtomic call w (rebuild_store std s) s (h a s refl))

  pub commit_or_restore-IsAtomic :
      {A : Type 0} (call : Call) (w : World) (o : Result Error A × Store)
      → o.1.path ≡ w.store.path
      → IsAtomic w (commit_or_restore std call w o)
  unfolding commit_or_restore commit_locked
  commit_or_restore-IsAtomic call w (err e, s) h = restored-IsAtomic w e s w.disk h refl
  commit_or_restore-IsAtomic call w (ok a, s) h =
      returning-IsAtomic w a _ (commit_rebuilt-IsAtomic call w (rebuild_store std s) s h)

pub checked-IsAtomic :
    {X A : Type 0} (w : World) (r : Result Error X) (k : X → Outcome A)
    → ((x : X) → IsAtomic w (k x))
    → IsAtomic w (checked w r k)
unfolding checked
checked-IsAtomic w (ok x) k h = h x
checked-IsAtomic w (err e) k h = IsAtomic-err w e
