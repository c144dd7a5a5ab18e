-- ===== src/Routes/Calls/Paths.antt =====
-- No change of the resources touches the path or the revision, and no load touches the path.
use caddy_reverse_proxy.Common.{ℕ, ◌≡◌, refl, ◌∙◌, Result, ok, err, arith, Bool, true, false}
use caddy_reverse_proxy.Common.Exec.Keeps.{
  Keeps, Keeps-if, Keeps-bind, Keeps-pure, Keeps-modify, Keeps-lift,
}
use caddy_reverse_proxy.Text.{Text}
use caddy_reverse_proxy.Model.{Listener, BackendPool, RoutingRule}
use caddy_reverse_proxy.Routes.Errors.{Error}
use caddy_reverse_proxy.Routes.Std.{Std, Call}
use caddy_reverse_proxy.Routes.Store.{Store, FileFormat}
use caddy_reverse_proxy.Routes.Operations.{
  or_not_found, add_listener_change, replace_listener_change, delete_listener_change,
  add_pool_change, replace_pool_change, delete_pool_change, add_rule_change, replace_rule_change,
  delete_rule_change, normalize_resources_locked,
}
use caddy_reverse_proxy.Routes.Compat.Pruning.{
  remove_rule, prune_resources, prune_pool, prune_listener,
}
use caddy_reverse_proxy.Routes.Load.{
  take_lists, clear_lists, keep_normalized, load_routing, load_revisions, load_payload,
}
use caddy_reverse_proxy.Routes.Invariant.Compat.{IsStable, rebuild_routes_locked-Keeps}
use caddy_reverse_proxy.Routes.Invariant.Load.{migrate_routes-Keeps}

-- What no change of the resources touches.
abbrev pub SameHeader : Store → Store → Type 0
SameHeader s s' = (s'.path ≡ s.path) × (s'.revision ≡ s.revision)

module _ {c : Listener} {s' : Store} (now : ℕ → ℕ) (l : Listener) (s : Store) where
  pub add_listener_change-header : add_listener_change now l s ≡ ok (c, s') → SameHeader s s'
  unfolding add_listener_change
  add_listener_change-header h = ground arith

  pub replace_listener_change-header :
      replace_listener_change now l s ≡ ok (c, s') → SameHeader s s'
  unfolding replace_listener_change or_not_found
  replace_listener_change-header h = ground arith

module _ {s' : Store} (id : Text) (s : Store) where
  pub delete_listener_change-header : delete_listener_change id s ≡ ok (tt, s') → SameHeader s s'
  unfolding delete_listener_change or_not_found
  delete_listener_change-header h = ground arith

  pub delete_pool_change-header : delete_pool_change id s ≡ ok (tt, s') → SameHeader s s'
  unfolding delete_pool_change or_not_found
  delete_pool_change-header h = ground arith

  pub delete_rule_change-header : delete_rule_change id s ≡ ok (tt, s') → SameHeader s s'
  unfolding delete_rule_change or_not_found
  delete_rule_change-header h = ground arith

module _ (std : Std) where
  module _ {c : BackendPool} {s' : Store} (now : ℕ → ℕ) (p : BackendPool) (s : Store) where
    pub add_pool_change-header : add_pool_change std now p s ≡ ok (c, s') → SameHeader s s'
    unfolding add_pool_change
    add_pool_change-header h = ground arith

    pub replace_pool_change-header : replace_pool_change std now p s ≡ ok (c, s') → SameHeader s s'
    unfolding replace_pool_change or_not_found
    replace_pool_change-header h = ground arith

  module _ {c : RoutingRule} {s' : Store} (now : ℕ → ℕ) (r : RoutingRule) (s : Store) where
    pub add_rule_change-header : add_rule_change std now r s ≡ ok (c, s') → SameHeader s s'
    unfolding add_rule_change
    add_rule_change-header h = ground arith

    pub replace_rule_change-header : replace_rule_change std now r s ≡ ok (c, s') → SameHeader s s'
    unfolding replace_rule_change or_not_found
    replace_rule_change-header h = ground arith

  pub normalize_resources_locked-header :
      (s : Store) {s' : Store} → normalize_resources_locked std s ≡ ok s' → SameHeader s s'
  unfolding normalize_resources_locked
  normalize_resources_locked-header s h = ground arith

  -- The stores at one path.
  abbrev pub At : Text → Store → Type 0
  At path s = s.path ≡ path

  pub At-IsStable : (path : Text) → IsStable std (At path)
  At-IsStable path = record {
    listener = λ now l s c s' e h. (add_listener_change-header now l s e).0 ∙ h;
    pool = λ now p s c s' e h. (add_pool_change-header now p s e).0 ∙ h;
    rule = λ now r s c s' e h. (add_rule_change-header now r s e).0 ∙ h;
    routes = λ s routes h. h;
  }

  -- The stores with one revision.
  abbrev pub AtRevision : ℕ → Store → Type 0
  AtRevision n s = s.revision ≡ n

  pub AtRevision-IsStable : (n : ℕ) → IsStable std (AtRevision n)
  AtRevision-IsStable n = record {
    listener = λ now l s c s' e h. (add_listener_change-header now l s e).1 ∙ h;
    pool = λ now p s c s' e h. (add_pool_change-header now p s e).1 ∙ h;
    rule = λ now r s c s' e h. (add_rule_change-header now r s e).1 ∙ h;
    routes = λ s routes h. h;
  }

  pub remove_rule-header :
      (old : RoutingRule) (id : Text) (s : Store) → SameHeader s (remove_rule old id s)
  unfolding remove_rule prune_resources
  remove_rule-header old id s =
      let (path, revision) = prune_pool-header old.backend_pool_id _ in
      let (path', revision') = prune_listener-header old.listener_id _ in
      (path' ∙ path, revision' ∙ revision)
    where
      prune_pool-header : (k : Text) (q : Store) → SameHeader q (prune_pool k q)
      prune_pool-header k q = unfold prune_pool in ground arith

      prune_listener-header : (k : Text) (q : Store) → SameHeader q (prune_listener k q)
      prune_listener-header k q = unfold prune_listener in ground arith

  keep_normalized-path :
      (s : Store) (r : Result Error Store)
      → normalize_resources_locked std s ≡ r
      → (keep_normalized s r).1.path ≡ s.path
  keep_normalized-path s (ok s') e = (normalize_resources_locked-header s e).0
  keep_normalized-path s (err x) e = refl

  module _ (path : Text) where
    load_routing-path : (now : ℕ → ℕ) (f : FileFormat) → Keeps (At path) (load_routing std now f)
    unfolding load_routing take_lists clear_lists
    load_routing-path now f =
        Keeps-if _ _ _
          (Keeps-bind _ _ (Keeps-modify (take_lists f) λ s h. h) λ _.
            Keeps-bind _ _
              (record {
                at = λ s h. keep_normalized-path s (normalize_resources_locked std s) refl ∙ h;
              })
              λ _. Keeps-pure false)
          (Keeps-bind _ _ (Keeps-modify clear_lists λ s h. h) λ _.
            Keeps-bind _ _ (migrate_routes-Keeps std (At path) (At-IsStable path) now f.routes)
              λ _. Keeps-pure true)

    load_revisions-path :
        (call : Call) (f : FileFormat) (migrated : Bool)
        → Keeps (At path) (load_revisions std call f migrated)
    unfolding load_revisions
    load_revisions-path call f migrated =
        Keeps-if _ _ _
          (Keeps-bind _ _ (Keeps-modify _ λ s h. h)
            λ _. Keeps-bind _ _ (Keeps-modify _ λ s h. h) λ _. Keeps-pure true)
          (Keeps-bind _ _ (Keeps-modify _ λ s h. h) λ _.
            Keeps-bind _ _ (Keeps-lift _)
              λ snapshot. Keeps-bind _ _ (Keeps-modify _ λ s h. h) λ _. Keeps-pure migrated)

    pub load_payload-path :
        (call : Call) (f : FileFormat) → Keeps (At path) (load_payload std call f)
    unfolding load_payload
    load_payload-path call f = Keeps-bind _ _ (load_routing-path call.now f) λ migrated.
        Keeps-bind _ _ (rebuild_routes_locked-Keeps std (At path) (At-IsStable path))
          λ _. load_revisions-path call f migrated
