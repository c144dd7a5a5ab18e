-- ===== src/Routes/Calls/Durability.antt =====
-- What a successful commit has done: the revision is one higher, and the file holds the store.
use caddy_reverse_proxy.Common.{
  ℕ, ◌≡◌, ◌≢◌, refl, ap, sym, subst, ◌∙◌, List, [], Result, some, ok, err, arith, inl, inr, Bool,
  true, false, if◌then◌else◌, ltb, ◌||◌, Bool-cases, ◌≤◌,
}
use caddy_reverse_proxy.Model.{RouteConfig}
use caddy_reverse_proxy.Routes.Errors.{Error}
use caddy_reverse_proxy.Routes.Std.{Std, Call}
use caddy_reverse_proxy.Routes.Store.{
  Snapshot, payload, file_of_store, Store, StoreSnapshot, World, Outcome, set_store,
  snapshot_locked, save_locked,
}
use caddy_reverse_proxy.Routes.Commit.{
  checked, or_restore, returning, commit_rebuilt, commit_locked, commit_change, commit_or_restore,
  rebuild_store, mark_applied, finish_applied, next_revision,
}
use caddy_reverse_proxy.Routes.Calls.Saves.{IsDurable, IsCommitted, save_locked-ok}

pub IsCommitted-err :
    {A : Type 0} (n : ℕ) (e : Error) (w : World) → IsCommitted {A = A} n (err e, w)
IsCommitted-err n e w = record { at = λ a h. cc }

saved-IsDurable :
    (call : Call) (w : World) → (save_locked call w).0 ≡ ok tt → IsDurable (save_locked call w).1
saved-IsDurable call w h staged path =
    let (same, file) = save_locked-ok call w h in rw same (file (rw same at path))

or_restore-IsCommitted :
    {A : Type 0} (n : ℕ) (snapshot : StoreSnapshot) (o : Outcome A)
    → IsCommitted n o
    → IsCommitted n (or_restore snapshot o)
unfolding or_restore
or_restore-IsCommitted n snapshot (ok a, w) h = h
or_restore-IsCommitted n snapshot (err e, w) h = IsCommitted-err n e _

pub returning-IsCommitted :
    {A B : Type 0} (n : ℕ) (b : B) (o : Outcome A) → IsCommitted n o → IsCommitted n (returning b o)
unfolding returning
returning-IsCommitted n b (ok a, w) h = record { at = λ _ _. h.at a refl }
returning-IsCommitted n b (err e, w) h = IsCommitted-err n e w

pub checked-IsCommitted :
    {X A : Type 0} (n : ℕ) (w : World) (r : Result Error X) (k : X → Outcome A)
    → ((x : X) → IsCommitted n (k x))
    → IsCommitted n (checked w r k)
unfolding checked
checked-IsCommitted n w (ok x) k h = h x
checked-IsCommitted n w (err e) k h = IsCommitted-err n e w

pub IsCommitted-if :
    {A : Type 0} (n : ℕ) (b : Bool) (x y : Outcome A)
    → (b ≡ true → IsCommitted n x)
    → (b ≡ false → IsCommitted n y)
    → IsCommitted n (if b then x else y)
IsCommitted-if n true x y h k = h refl
IsCommitted-if n false x y h k = k refl

pub staged-IsCommitted :
    (n : ℕ) (w : World) (u : Unit {0})
    → w.store.staged ≡ true
    → w.store.revision ≡ next_revision n
    → IsCommitted n (ok u, w)
staged-IsCommitted n w u staged counted = record { at = λ _ _. (counted, λ saved path. cc) }

saved-IsCommitted :
    (n : ℕ) (call : Call) (w : World)
    → w.store.revision ≡ next_revision n
    → IsCommitted n (save_locked call w)
saved-IsCommitted n call w counted = record {
  at = λ a h. (
    ap (λ (s : Store). s.revision) (save_locked-ok call w h).0 ∙ counted,
    saved-IsDurable call w h,
  );
}

commit_rebuilt-IsCommitted :
    (call : Call) (snapshot : StoreSnapshot) (r : Result Error (List RouteConfig)) (w : World)
    → IsCommitted w.store.revision (commit_rebuilt call snapshot r w)
unfolding commit_rebuilt
commit_rebuilt-IsCommitted call snapshot (err e) w = IsCommitted-err _ e _
commit_rebuilt-IsCommitted call snapshot (ok routes) w =
    let n = w.store.revision in
    let s = record w.store { routes = routes; revision = next_revision n } in
    IsCommitted-if n s.staged _ _ (λ staged. staged-IsCommitted n (set_store w s) tt staged refl)
      λ _.
        or_restore-IsCommitted n snapshot (save_locked call (set_store w s))
          (saved-IsCommitted n call (set_store w s) refl)

module _ (std : Std) where
  pub commit_change-IsCommitted :
      {A : Type 0} (call : Call) (w : World) (r : Result Error (A × Store))
      → ((a : A) (s : Store) → r ≡ ok (a, s) → s.revision ≡ w.store.revision)
      → IsCommitted w.store.revision (commit_change std call w r)
  unfolding commit_change commit_locked
  commit_change-IsCommitted call w (err e) h = IsCommitted-err _ e w
  commit_change-IsCommitted call w (ok (a, s)) h = returning-IsCommitted w.store.revision a _ (
      subst
        (λ n.
          IsCommitted {A = Unit {0}} n
            (commit_rebuilt call (snapshot_locked w.store) (rebuild_store std s) (set_store w s)))
        (h a s refl)
        (commit_rebuilt-IsCommitted call (snapshot_locked w.store) (rebuild_store std s)
          (set_store w s)))

  pub commit_or_restore-IsCommitted :
      {A : Type 0} (call : Call) (w : World) (o : Result Error A × Store)
      → o.1.revision ≡ w.store.revision
      → IsCommitted w.store.revision (commit_or_restore std call w o)
  unfolding commit_or_restore commit_locked
  commit_or_restore-IsCommitted call w (err e, s) h = IsCommitted-err _ e _
  commit_or_restore-IsCommitted call w (ok a, s) h = returning-IsCommitted w.store.revision a _ (
      subst
        (λ n.
          IsCommitted {A = Unit {0}} n
            (commit_rebuilt call (snapshot_locked w.store) (rebuild_store std s) (set_store w s)))
        h
        (commit_rebuilt-IsCommitted call (snapshot_locked w.store) (rebuild_store std s)
          (set_store w s)))

pub record IsApplied (s : Store) (o : Outcome (Unit {0})) : Type 0 where
  pub at : o.0 ≡ ok tt → (o.1.store ≡ s) × IsDurable o.1

finish_applied-IsApplied :
    (previous : Snapshot) (s : Store) (o : Outcome (Unit {0}))
    → (o.0 ≡ ok tt
        → (o.1.store ≡ s) × (s.path ≢ [] → o.1.disk.target ≡ some (payload (file_of_store s))))
    → IsApplied (record s { staged = false }) (finish_applied previous o)
unfolding file_of_store
finish_applied-IsApplied previous s (ok tt, w) h = record {
  at = λ _.
      let (same, file) = h refl in
      (
        ap (λ (x : Store). record x { staged = false }) same,
        λ staged path. rw same (file (rw (sym same) path)),
      );
}
finish_applied-IsApplied previous s (err e, w) h = record { at = λ failed. cc }

IsApplied-if :
    (b : Bool) (s : Store) (x y : Outcome (Unit {0}))
    → x.0 ≢ ok tt
    → IsApplied s y
    → IsApplied s (if b then x else y)
IsApplied-if true s x y ne h = record { at = λ done. absurd (ne done) }
IsApplied-if false s x y ne h = h

mark_applied-IsApplied :
    (call : Call) (snapshot : Snapshot) (w : World)
    → IsApplied
        (record w.store { applied = snapshot; staged = false })
        (mark_applied call snapshot w)
unfolding mark_applied
mark_applied-IsApplied call snapshot w =
    let s = record w.store { applied = snapshot } in
    IsApplied-if
      (ltb w.store.revision snapshot.revision || ltb snapshot.revision w.store.applied.revision) _ _
      _ (λ h. cc)
      (finish_applied-IsApplied w.store.applied s (save_locked call (set_store w s))
        (save_locked-ok call (set_store w s)))

mark_applied-bounds :
    (call : Call) (snapshot : Snapshot) (w : World)
    → (mark_applied call snapshot w).0 ≡ ok tt
    → (w.store.applied.revision ≤ snapshot.revision) × (snapshot.revision ≤ w.store.revision)
unfolding mark_applied
mark_applied-bounds call snapshot w h =
    elim (Bool-cases
      (ltb w.store.revision snapshot.revision || ltb snapshot.revision w.store.applied.revision)) [
        | inl stale ↦ absurd (ground arith)
        | inr fresh ↦ ground arith
      ]

-- MarkApplied, when it succeeds on a store that has a file, was given a snapshot whose revision is
-- between the applied and the desired one. It has kept the snapshot as applied, ended the staging,
-- left everything else of the store as it was, and written the store that it leaves to the file.
pub mark_applied-ok :
    (call : Call) (snapshot : Snapshot) (w : World)
    → w.store.path ≢ []
    → (mark_applied call snapshot w).0 ≡ ok tt
    → (w.store.applied.revision ≤ snapshot.revision)
      × (snapshot.revision ≤ w.store.revision)
      × ((mark_applied call snapshot w).1.store
          ≡ record w.store { applied = snapshot; staged = false })
      × ((mark_applied call snapshot w).1.disk.target
          ≡ some (payload (file_of_store (mark_applied call snapshot w).1.store)))
mark_applied-ok call snapshot w path h =
    let (low, high) = mark_applied-bounds call snapshot w h in
    let (same, file) = (mark_applied-IsApplied call snapshot w).at h in
    (
      low,
      high,
      same,
      file (ap (λ (s : Store). s.staged) same)
          λ e. path (sym (ap (λ (s : Store). s.path) same) ∙ e),
    )
