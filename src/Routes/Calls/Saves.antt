-- ===== src/Routes/Calls/Saves.antt =====
-- A save that succeeds has written the store to its file.
use caddy_reverse_proxy.Common.{ℕ, ◌≡◌, ◌≢◌, refl, [], Result, some, ok, err, arith, false}
use caddy_reverse_proxy.Text.Laws.{==_iff}
use caddy_reverse_proxy.Persistence.{Fault, write_json}
use caddy_reverse_proxy.Persistence.Laws.{write_json-ok}
use caddy_reverse_proxy.Routes.Std.{Call}
use caddy_reverse_proxy.Routes.Store.{
  payload, file_of_store, World, Outcome, with_save_error, write_store, save_locked,
}
use caddy_reverse_proxy.Routes.Commit.{next_revision}

-- The file holds the store, unless a staged bundle waits to be written or the store has no file.
abbrev pub IsDurable : World → Type 0
IsDurable w =
    w.store.staged ≡ false
    → w.store.path ≢ []
    → w.disk.target ≡ some (payload (file_of_store w.store))

-- A success has counted from revision `n` and is durable.
pub record IsCommitted {A : Type 0} (n : ℕ) (o : Outcome A) : Type 0 where
  pub at : (a : A) → o.0 ≡ ok a → (o.1.store.revision ≡ next_revision n) × IsDurable o.1

saved-ok : (r : Result Fault (Unit {0})) → with_save_error r ≡ ok tt → r ≡ ok tt
saved-ok (ok tt) h = refl
saved-ok (err f) h = cc

write_store-ok :
    (call : Call) (w : World)
    → (write_store call w).0 ≡ ok tt
    → (write_store call w).1.disk.target ≡ some (payload (file_of_store w.store))
unfolding write_store
write_store-ok call w h =
    let file = payload (file_of_store w.store) in
    write_json-ok call.fault file w.disk (saved-ok (write_json call.fault file w.disk).0 h)

write_store-store : (call : Call) (w : World) → (write_store call w).1.store ≡ w.store
unfolding write_store
write_store-store call w = refl

pub save_locked-ok :
    (call : Call) (w : World)
    → (save_locked call w).0 ≡ ok tt
    → ((save_locked call w).1.store ≡ w.store)
      × (w.store.path ≢ []
          → (save_locked call w).1.disk.target ≡ some (payload (file_of_store w.store)))
unfolding save_locked
save_locked-ok call w h = (
  ground (arith, write_store-store call w),
  λ ne. ground (arith, write_store-ok call w, ==_iff w.store.path []),
)
