-- ===== src/Routes/Load.antt =====
-- backend/internal/routes/store.go: Load, with the migration of the older file versions.
use caddy_reverse_proxy.Common.{
  ℕ, ◌+◌, Bool, true, false, not, ◌||◌, Option, none, some, List, [], ◌∷◌, Result, ok, err, ltb,
  wrap_err, if◌then◌else◌, is_empty,
}
use caddy_reverse_proxy.Common.Exec.{Exec, pure, lift, modify, continue, ◌>>=◌, ◌>>◌}
use caddy_reverse_proxy.Common.Int.{lt_ℤ, gt_ℤ}
use caddy_reverse_proxy.Text.{◌==◌}
use caddy_reverse_proxy.Model.{RouteConfig}
use caddy_reverse_proxy.Persistence.{Disk}
use caddy_reverse_proxy.Routes.Errors.{
  Error, unsupported_version, invalid_applied, invalid_applied_resources, migrate_failed,
  save_migrated, read_failed, malformed,
}
use caddy_reverse_proxy.Routes.Std.{Std, Call}
use caddy_reverse_proxy.Routes.Store.{
  ResourceSet, Snapshot, FileFormat, Content, payload, Store, World, Outcome, new_store,
  desired_snapshot, snapshot_locked, restore_locked, set_store, save_locked,
}
use caddy_reverse_proxy.Routes.Operations.{normalize_resources_locked, replace_resources}
use caddy_reverse_proxy.Routes.Compat.{migrate_route_locked, rebuild_routes_locked}

-- Each route of the loop takes its own readings of the clock.
abbrev pub later : (ℕ → ℕ) → ℕ → ℕ
later now k = now (k + 8)

-- The lists of the file replace the store's; the routes are compiled later.
unfoldable pub take_lists : FileFormat → Store → Store
take_lists f s = record s {
  listeners = f.listeners;
  backend_pools = f.backend_pools;
  routing_rules = f.routing_rules;
  routes = [];
}

unfoldable pub clear_lists : Store → Store
clear_lists s = record s { listeners = []; backend_pools = []; routing_rules = []; routes = [] }

unfoldable pub has_resources : FileFormat → Bool
has_resources f =
    not (lt_ℤ f.version 2)
    || not (is_empty f.listeners)
    || not (is_empty f.backend_pools)
    || not (is_empty f.routing_rules)

abbrev pub map_error {ℓ} :
    {A : Type ℓ} {S : Type 0} → (Error → Error) → Result Error A × S → Result Error A × S
map_error f (r, s) = (wrap_err f r, s)

abbrev pub keep_normalized : Store → Result Error Store → Result Error (Unit {0}) × Store
keep_normalized s (ok normalized) = (ok tt, normalized)
keep_normalized s (err e) = (err e, s)

-- The disk of a store with no path.
abbrev no_disk : Disk Content
no_disk = record { target = none; temporary = none }

-- A store made by NewStore("").
abbrev pub fresh : World
fresh = record { store = new_store []; disk = no_disk }

abbrev applied_of : ℕ → Outcome (Unit {0}) → Result Error Snapshot
applied_of revision (ok _, w) = ok (record (desired_snapshot w.store) { revision = revision })
applied_of revision (err e, w) = err (invalid_applied_resources e)

abbrev pub save_or_restore : World → Outcome (Unit {0}) → Outcome (Unit {0})
save_or_restore w (ok u, w') = (ok u, w')
save_or_restore w (err e, w') =
    (err (save_migrated e), set_store w' (restore_locked (snapshot_locked w.store) w'.store))

module _ (std : Std) where
  unfoldable pub migrate_routes : (ℕ → ℕ) → List RouteConfig → Exec Store Error (Unit {0})
  migrate_routes now [] s = (ok tt, s)
  migrate_routes now (r ∷ routes) s =
      continue (map_error (migrate_failed r.id) (migrate_route_locked std now r s))
        λ _. migrate_routes (later now) routes

  -- The branch on the file's version; whether it migrated.
  unfoldable pub load_routing : (ℕ → ℕ) → FileFormat → Exec Store Error Bool
  load_routing now f =
      if has_resources f
      then (do
        modify (take_lists f)
        λ s. keep_normalized s (normalize_resources_locked std s)
        pure false)
      else do modify clear_lists; migrate_routes now f.routes; pure true

  unfoldable pub applied_snapshot : Call → FileFormat → Option ResourceSet → Result Error Snapshot
  applied_snapshot call f none = err invalid_applied
  applied_snapshot call f (some resources) =
      if ltb f.revision f.applied_revision
      then err invalid_applied
      else applied_of f.applied_revision (replace_resources std call resources fresh)

  -- From `s.revision = payload.Revision` on; whether the file has to be saved.
  unfoldable pub load_revisions : Call → FileFormat → Bool → Exec Store Error Bool
  load_revisions call f migrated =
      if lt_ℤ f.version 3
      then (do
        modify (λ (s : Store). record s { staged = false; revision = 1 })
        modify (λ (s : Store). record s { applied = desired_snapshot s })
        pure true)
      else (do
        modify (λ (s : Store). record s { staged = false; revision = f.revision })
        snapshot ← lift (applied_snapshot call f f.applied)
        modify (λ (s : Store). record s { applied = snapshot })
        pure migrated)

  unfoldable pub load_payload : Call → FileFormat → Exec Store Error Bool
  load_payload call f = do
    migrated ← load_routing call.now f
    rebuild_routes_locked std
    load_revisions call f migrated

  unfoldable pub finish_load : Call → World → Result Error Bool × Store → Outcome (Unit {0})
  finish_load call w (err e, s) = (err e, set_store w (restore_locked (snapshot_locked w.store) s))
  finish_load call w (ok false, s) = (ok tt, set_store w s)
  finish_load call w (ok true, s) = save_or_restore w (save_locked call (set_store w s))

  unfoldable pub load_content : Call → Content → World → Outcome (Unit {0})
  load_content call Content.malformed w = (err malformed, w)
  load_content call (payload f) w =
      if gt_ℤ f.version 3
      then (err (unsupported_version f.version), w)
      else finish_load call w (load_payload call f w.store)

  unfoldable pub load_found : Call → Option Content → World → Outcome (Unit {0})
  load_found call none w = (ok tt, w)
  load_found call (some content) w =
      if call.unreadable then (err read_failed, w) else load_content call content w

  unfoldable pub load : Call → World → Outcome (Unit {0})
  unfolding load_found
  load call w = if w.store.path == [] then (ok tt, w) else load_found call w.disk.target w
