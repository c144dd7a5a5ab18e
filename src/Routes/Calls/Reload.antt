-- ===== src/Routes/Calls/Reload.antt =====
-- Load reads back what a save has written.
use caddy_reverse_proxy.Common.{
  ◌≡◌, ◌≢◌, ◌≤◌, ltb, sym, refl, ap, ◌∙◌, Bool, true, false, List, [], map, some, Result, ok, err,
  if◌then◌else◌, Result-cases, arith, inl, inr, ◌>>=◌,
}
use caddy_reverse_proxy.Common.Exec.{◌>>=◌ as exec_bind}
use caddy_reverse_proxy.Text.{◌==◌}
use caddy_reverse_proxy.Text.Laws.{==_iff}
use caddy_reverse_proxy.Model.{Listener, BackendPool, RoutingRule}
use caddy_reverse_proxy.Routes.Errors.{Error}
use caddy_reverse_proxy.Routes.Std.{Std, Call}
use caddy_reverse_proxy.Routes.Listeners.{normalize_listeners}
use caddy_reverse_proxy.Routes.Pools.{normalize_pools}
use caddy_reverse_proxy.Routes.Rules.{normalize_rules}
use caddy_reverse_proxy.Routes.Store.{
  Store, World, Snapshot, new_store, desired_snapshot, resource_set_version, save_locked, payload,
  FileFormat, file_of_store, marshal_resources, clear_error, set_store,
}
use caddy_reverse_proxy.Routes.Operations.{
  normalize_resources_locked, replace_resources, with_resources, normalized_or,
}
use caddy_reverse_proxy.Common.Int.{ℤ}
use caddy_reverse_proxy.Routes.Commit.{
  rebuild_store, commit_or_restore, commit_locked, commit_rebuilt, returning, or_restore,
}
use caddy_reverse_proxy.Routes.Compat.{rebuild_routes_locked, keep_routes}
use caddy_reverse_proxy.Routes.Load.{
  fresh, take_lists, has_resources, load_routing, load_revisions, applied_snapshot, load_payload,
  finish_load, load_content, load_found, load,
}
use caddy_reverse_proxy.Routes.Invariant.{IsWellFormed}

-- `t` with the lists of `s`.
abbrev put_lists : Store → Store → Store
put_lists t s = record t {
  listeners = s.listeners;
  backend_pools = s.backend_pools;
  routing_rules = s.routing_rules;
}

abbrev move : Store → Result Error Store → Result Error Store
move t (ok s) = ok (put_lists t s)
move t (err e) = err e

-- A test that fails goes on.
otherwise : {A : Type 0} (x : A) {y z : A} (b : Bool) → b ≡ false → y ≡ z → (if b then x else y) ≡ z
otherwise x true e h = absurd cc
otherwise x false e h = h

module _ (s t : Store) (ls : List Listener) (ps : List BackendPool) where
  move-rules :
      (r : Result Error (List RoutingRule))
      → (r >>= λ rs. ok (record t { listeners = ls; backend_pools = ps; routing_rules = rs }))
        ≡ move t
            (r >>= λ rs. ok (record s { listeners = ls; backend_pools = ps; routing_rules = rs }))
  move-rules (ok rs) = refl
  move-rules (err e) = refl

-- The store that is read back.
abbrev pub reloaded : World → Store → Store
reloaded w s = record s { path = w.store.path; staged = false }

-- A new store with the resources of a snapshot.
abbrev pub store_of : Snapshot → Store
store_of a = record (new_store []) {
  listeners = a.resources.listeners;
  backend_pools = a.resources.backend_pools;
  routing_rules = a.resources.routing_rules;
}

module _ (std : Std) where
  -- Normalisation reads the three lists of a store and nothing else.
  normalize_resources_locked-move :
      (s t : Store)
      → normalize_resources_locked std (put_lists t s) ≡ move t (normalize_resources_locked std s)
  unfolding normalize_resources_locked
  normalize_resources_locked-move s t = elim (Result-cases (normalize_listeners [] s.listeners)) [
    | inr (e, failed) ↦ rw failed refl
    | inl (ls, hl) ↦ elim (Result-cases (normalize_pools std [] s.backend_pools)) [
      | inr (e, failed) ↦ rw (hl, failed) refl
      | inl (ps, hp) ↦
          rw (hl, hp) (move-rules s t ls ps (normalize_rules std ls ps [] s.routing_rules))
    ]
  ]

  -- An applied snapshot that reading it back leaves alone: its resources carry the version of a
  -- resource set and no runtime errors, normalisation leaves them as they are, and they compile to its
  -- routes.
  pub record IsSettled (a : Snapshot) : Type 0 where
    pub version : a.resources.version ≡ resource_set_version
    pub clear : map clear_error a.resources.routing_rules ≡ a.resources.routing_rules
    pub normal : normalize_resources_locked std (store_of a) ≡ ok (store_of a)
    pub compiled : rebuild_store std (store_of a) ≡ ok a.routes

  replace_resources-store_of :
      (call : Call) (a : Snapshot)
      → IsSettled a
      → replace_resources std call (marshal_resources a.resources) fresh
        ≡ (ok tt, set_store fresh (record (store_of a) { routes = a.routes; revision = 1 }))
  unfolding replace_resources with_resources normalized_or commit_or_restore commit_locked
      commit_rebuilt save_locked marshal_resources new_store returning or_restore ◌==◌
  replace_resources-store_of call a h =
      let clear : map clear_error (map clear_error a.resources.routing_rules)
          ≡ a.resources.routing_rules =
        ap (map clear_error) h.clear ∙ h.clear in
      rw (h.version, clear, h.normal, h.compiled) refl

  applied_snapshot-file_of_store :
      (call : Call) (s : Store)
      → s.applied.revision ≤ s.revision
      → IsSettled s.applied
      → applied_snapshot std call (file_of_store s) (some (marshal_resources s.applied.resources))
        ≡ ok s.applied
  unfolding applied_snapshot file_of_store desired_snapshot
  applied_snapshot-file_of_store call s h k =
      let fits : ltb s.revision s.applied.revision ≡ false = ground arith in
      rw (fits, replace_resources-store_of call s.applied k)
        (ap
          (λ (v : ℤ).
            ok (record s.applied { resources = record s.applied.resources { version = v } }))
          (sym k.version))

  load_payload-file_of_store :
      (call : Call) (s t : Store)
      → IsWellFormed std s
      → map clear_error s.routing_rules ≡ s.routing_rules
      → normalize_resources_locked std s ≡ ok s
      → applied_snapshot std call (file_of_store s) (some (marshal_resources s.applied.resources))
        ≡ ok s.applied
      → load_payload std call (file_of_store s) t
        ≡ (ok false, record s { path = t.path; staged = false })
  unfolding load_payload load_routing has_resources take_lists load_revisions rebuild_routes_locked
      file_of_store keep_routes exec_bind
  load_payload-file_of_store call s t good clear normal applied =
      let t' = record t { routes = [] } in
      let fixed : normalize_resources_locked std (put_lists t' s) ≡ ok (put_lists t' s) =
        normalize_resources_locked-move s t' ∙ ap (move t') normal in
      rw (applied, clear, fixed, good.compiled) refl

  finish_load-ok :
      (call : Call) (w : World) (f : FileFormat) (s : Store)
      → load_payload std call f w.store ≡ (ok false, s)
      → finish_load std call w (load_payload std call f w.store) ≡ (ok tt, set_store w s)
  unfolding finish_load
  finish_load-ok call w f s h = ap (finish_load std call w) h

  load_found-payload :
      (call : Call) (w : World) (s t : Store)
      → call.unreadable ≡ false
      → load_payload std call (file_of_store s) w.store ≡ (ok false, t)
      → load_found std call (some (payload (file_of_store s))) w ≡ (ok tt, set_store w t)
  unfolding load_found load_content file_of_store
  load_found-payload call w s t readable h =
      otherwise _ call.unreadable readable (finish_load-ok call w (file_of_store s) t h)

  -- Load on a file that a save of the store `s` has written, if it can be read, succeeds and leaves
  -- that store with no bundle waiting, and the disk as it is. The store `s` is well-formed, its rules
  -- have no runtime error, and normalisation leaves its resources as they are; its applied revision
  -- is not ahead of its revision, and the resources that were applied have the version of a resource
  -- set and no runtime errors, are left as they are by normalisation, and compile to the routes that
  -- were applied.
  pub load-file_of_store :
      (call : Call) (w : World) (s : Store)
      → w.store.path ≢ []
      → call.unreadable ≡ false
      → w.disk.target ≡ some (payload (file_of_store s))
      → IsWellFormed std s
      → map clear_error s.routing_rules ≡ s.routing_rules
      → normalize_resources_locked std s ≡ ok s
      → s.applied.revision ≤ s.revision
      → IsSettled s.applied
      → load std call w ≡ (ok tt, set_store w (reloaded w s))
  unfolding load
  load-file_of_store call w s path readable file good clear normal ahead stable =
      let named : w.store.path == [] ≡ false = ground (arith, ==_iff w.store.path []) in
      let applied = applied_snapshot-file_of_store call s ahead stable in
      let read = load_payload-file_of_store call s w.store good clear normal applied in
      otherwise _ (w.store.path == []) named (
        ap (λ found. load_found std call found w) file
        ∙ load_found-payload call w s (reloaded w s) readable read)
