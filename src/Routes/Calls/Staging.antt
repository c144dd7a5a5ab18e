-- ===== src/Routes/Calls/Staging.antt =====
-- What reaches the file and when: a staged bundle only by PersistStaged, a runtime error never.
use caddy_reverse_proxy.Common.{
  ◌≡◌, ◌≢◌, refl, ap, ◌∙◌, Bool, true, false, List, [], ◌∷◌, map, some, Result, ok, err,
  if◌then◌else◌, arith,
}
use caddy_reverse_proxy.Common.Int.{eq_ℤ}
use caddy_reverse_proxy.Model.{RoutingRule, RouteConfig, RouteHealthStatus}
use caddy_reverse_proxy.Routes.Errors.{Error}
use caddy_reverse_proxy.Routes.Std.{Std, Call}
use caddy_reverse_proxy.Routes.Store.{
  ResourceSet, resource_set_version, Store, World, Outcome, payload, file_of_store, clear_error,
  save_locked,
}
use caddy_reverse_proxy.Routes.Commit.{finish_persist, persist_staged, rebuild_store}
use caddy_reverse_proxy.Routes.Operations.{
  with_resources, normalize_resources_locked, stage_rebuilt, stage_normalized, stage_resources,
}
use caddy_reverse_proxy.Routes.Runtime.{set_rule_error, set_runtime_status}
use caddy_reverse_proxy.Routes.Calls.Saves.{save_locked-ok}

-- Setting runtime errors changes nothing of what the store writes to its file.
pub set_runtime_status-file_of_store :
    (statuses : List RouteHealthStatus) (w : World)
    → file_of_store (set_runtime_status statuses w).store ≡ file_of_store w.store
unfolding set_runtime_status file_of_store clear_error
set_runtime_status-file_of_store statuses w = rw (cleared w.store.routing_rules) refl
  where
    cleared :
        (rules : List RoutingRule)
        → map clear_error (map (set_rule_error statuses) rules) ≡ map clear_error rules
    cleared [] = refl
    cleared (r ∷ rules) = ap (λ rest. clear_error r ∷ rest) (cleared rules)

-- What a staging keeps of the world `w`: the disk, and on success that a bundle waits.
record IsStaging (w : World) (o : Outcome (Unit {0})) : Type 0 where
  disk : o.1.disk ≡ w.disk
  waits : o.0 ≡ ok tt → o.1.store.staged ≡ true

IsStaging-if :
    (w : World) (b : Bool) (x y : Outcome (Unit {0}))
    → IsStaging w x
    → IsStaging w y
    → IsStaging w (if b then x else y)
IsStaging-if w true x y h k = h
IsStaging-if w false x y h k = k

stage_rebuilt-IsStaging :
    (w : World) (s : Store) (r : Result Error (List RouteConfig))
    → s.staged ≡ true
    → IsStaging w (stage_rebuilt w s r)
unfolding stage_rebuilt
stage_rebuilt-IsStaging w s (ok routes) h = record { disk = refl; waits = λ _. h }
stage_rebuilt-IsStaging w s (err e) h = record { disk = refl; waits = λ failed. cc }

module _ (std : Std) where
  stage_normalized-IsStaging :
      (w : World) (s : Store) (r : Result Error Store)
      → normalize_resources_locked std s ≡ r
      → s.staged ≡ true
      → IsStaging w (stage_normalized std w s r)
  unfolding stage_normalized normalize_resources_locked
  stage_normalized-IsStaging w s (ok s') e h =
      let kept : s'.staged ≡ s.staged = ground arith in
      stage_rebuilt-IsStaging w s' (rebuild_store std s') (kept ∙ h)
  stage_normalized-IsStaging w s (err x) e h = record { disk = refl; waits = λ failed. cc }

  stage_resources-IsStaging :
      (resources : ResourceSet) (w : World) → IsStaging w (stage_resources std resources w)
  unfolding stage_resources with_resources
  stage_resources-IsStaging resources w =
      let s = with_resources true resources w.store in
      IsStaging-if w (eq_ℤ resources.version resource_set_version) _ _
        (stage_normalized-IsStaging w s (normalize_resources_locked std s) refl refl)
        (record { disk = refl; waits = λ failed. cc })

record IsPersisted (w : World) (o : Outcome (Unit {0})) : Type 0 where
  at :
      o.0 ≡ ok tt
      → (o.1.store ≡ record w.store { staged = false })
        × (w.store.path ≢ [] → o.1.disk.target ≡ some (payload (file_of_store w.store)))

finish_persist-IsPersisted :
    (w : World) (o : Outcome (Unit {0}))
    → (o.0 ≡ ok tt
        → (o.1.store ≡ w.store)
          × (w.store.path ≢ [] → o.1.disk.target ≡ some (payload (file_of_store w.store))))
    → IsPersisted w (finish_persist o)
finish_persist-IsPersisted w (ok tt, v) h = record {
  at = λ _. (ap (λ (x : Store). record x { staged = false }) (h refl).0, (h refl).1);
}
finish_persist-IsPersisted w (err e, v) h = record { at = λ failed. cc }

IsPersisted-if :
    (w : World) (b : Bool) (x y : Outcome (Unit {0}))
    → b ≡ true
    → IsPersisted w x
    → IsPersisted w (if b then x else y)
IsPersisted-if w true x y e h = h
IsPersisted-if w false x y e h = absurd cc

persist_staged-IsPersisted :
    (call : Call) (w : World) → w.store.staged ≡ true → IsPersisted w (persist_staged call w)
unfolding persist_staged
persist_staged-IsPersisted call w waits =
    IsPersisted-if w w.store.staged _ _ waits
      (finish_persist-IsPersisted w (save_locked call w) (save_locked-ok call w))

module _ (std : Std) where
  -- A StageResources that succeeds does not touch the disk. When the PersistStaged behind it succeeds
  -- too, on a store that has a file, the file holds the staged store, and the store is the staged one
  -- with no bundle waiting.
  pub persist_staged-stage_resources :
      (call : Call) (resources : ResourceSet) (w : World)
      → (stage_resources std resources w).0 ≡ ok tt
      → (stage_resources std resources w).1.store.path ≢ []
      → (persist_staged call (stage_resources std resources w).1).0 ≡ ok tt
      → ((stage_resources std resources w).1.disk ≡ w.disk)
        × ((persist_staged call (stage_resources std resources w).1).1.store
            ≡ record (stage_resources std resources w).1.store { staged = false })
        × ((persist_staged call (stage_resources std resources w).1).1.disk.target
            ≡ some (payload (file_of_store (stage_resources std resources w).1.store)))
  persist_staged-stage_resources call resources w done path saved =
      let staging = stage_resources-IsStaging std resources w in
      let v = (stage_resources std resources w).1 in
      let (same, file) = (persist_staged-IsPersisted call v (staging.waits done)).at saved in
      (staging.disk, same, file path)
