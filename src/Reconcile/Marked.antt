-- ===== src/Reconcile/Marked.antt =====
-- MarkApplied, when the file of the store can be written.
use caddy_reverse_proxy.Common.{
  ℕ, ◌≡◌, ◌≤◌, refl, ap, inl, inr, ◌||◌, none, [], ok, err, ltb, arith, Bool-cases,
}
use caddy_reverse_proxy.Text.{Text, ◌==◌}
use caddy_reverse_proxy.Persistence.{write_json}
use caddy_reverse_proxy.Routes.Errors.{Error}
use caddy_reverse_proxy.Routes.Std.{Call}
use caddy_reverse_proxy.Routes.Store.{
  Snapshot, Store, World, Outcome, save_locked, write_store, set_store,
}
use caddy_reverse_proxy.Routes.Commit.{mark_applied, finish_applied}
use caddy_reverse_proxy.Reconcile.Sync.{described}

write_store-saved :
    (call : Call) (w : World)
    → call.fault ≡ none
    → ((write_store call w).0 ≡ ok tt) × ((write_store call w).1.store ≡ w.store)
unfolding write_store write_json
write_store-saved call w h = rw h (refl, refl)

save_locked-saved :
    (call : Call) (w : World)
    → call.fault ≡ none
    → ((save_locked call w).0 ≡ ok tt) × ((save_locked call w).1.store ≡ w.store)
unfolding save_locked
save_locked-saved call w h = elim (Bool-cases (w.store.path == [])) [
  | inl e ↦ rw e (refl, refl)
  | inr e ↦ rw e (write_store-saved call w h)
]

-- A commit that succeeds, with what it leaves of the store.
pub record IsMarked (snapshot : Snapshot) (n : ℕ) (o : Outcome (Unit {0})) : Type 0 where
  pub succeeded : o.0 ≡ ok tt
  pub applied : o.1.store.applied ≡ snapshot
  pub revision : o.1.store.revision ≡ n

finish_applied-IsMarked :
    (previous snapshot : Snapshot) (n : ℕ) (o : Outcome (Unit {0}))
    → o.0 ≡ ok tt
    → o.1.store.applied ≡ snapshot
    → o.1.store.revision ≡ n
    → IsMarked snapshot n (finish_applied previous o)
finish_applied-IsMarked previous snapshot n (ok tt, w) h k l = record {
  succeeded = refl;
  applied = k;
  revision = l;
}
finish_applied-IsMarked previous snapshot n (err e, w) h k l = cc

pub mark_applied-IsMarked :
    (call : Call) (snapshot : Snapshot) (w : World)
    → call.fault ≡ none
    → w.store.applied.revision ≤ snapshot.revision
    → snapshot.revision ≤ w.store.revision
    → IsMarked snapshot w.store.revision (mark_applied call snapshot w)
unfolding mark_applied
mark_applied-IsMarked call snapshot w h low high =
    let saved = save_locked-saved call (set_store w (record w.store { applied = snapshot })) h in
    elim (Bool-cases
      (ltb w.store.revision snapshot.revision || ltb snapshot.revision w.store.applied.revision)) [
        | inl stale ↦ absurd (ground arith)
        | inr fresh ↦ rw fresh (
            finish_applied-IsMarked w.store.applied snapshot w.store.revision _ saved.0
              (ap (λ (s : Store). s.applied) saved.1) (ap (λ (s : Store). s.revision) saved.1))
      ]

pub described-ok :
    (describe : Error → Text) (o : Outcome (Unit {0}))
    → o.0 ≡ ok tt
    → described describe o ≡ (ok tt, o.1)
described-ok describe (ok tt, w) h = refl
described-ok describe (err e, w) h = cc
