-- ===== src/Routes/Invariant/Changes.antt =====
-- Each change of the resources keeps them valid.
use caddy_reverse_proxy.Common.{ℕ, ◌≡◌, subst, List, [], ok, arith, All, >>=-eq-ok}
use caddy_reverse_proxy.Common.Lists.Laws.{All-mono}
use caddy_reverse_proxy.Model.{Listener, BackendPool, RoutingRule}
use caddy_reverse_proxy.Routes.Std.{Std}
use caddy_reverse_proxy.Routes.Listeners.{add_listener_locked, normalize_listeners}
use caddy_reverse_proxy.Routes.Pools.{add_backend_pool_locked, normalize_pools}
use caddy_reverse_proxy.Routes.Rules.{add_routing_rule_locked, normalize_rules}
use caddy_reverse_proxy.Routes.Store.{Store}
use caddy_reverse_proxy.Routes.Operations.{
  put_listeners, put_pools, put_rules, add_listener_change, add_pool_change, add_rule_change,
  normalize_resources_locked,
}
use caddy_reverse_proxy.Routes.Invariant.{AreValid}
use caddy_reverse_proxy.Routes.Invariant.Listeners.{
  AreListeners, add_listener_locked-AreListeners, normalize_listeners-AreListeners,
}
use caddy_reverse_proxy.Routes.Invariant.Pools.{
  ArePools, add_backend_pool_locked-ArePools, normalize_pools-ArePools,
}
use caddy_reverse_proxy.Routes.Invariant.Rules.{
  AreRules, AreRules-mono, add_routing_rule_locked-AreRules, normalize_rules-AreRules,
}
use caddy_reverse_proxy.Routes.Invariant.Lookups.{
  every_rule, FindsListener, FindsPool, FindsListener-append, FindsPool-append,
}

module _ (std : Std) where
  abbrev pub IsStoreValid : Store → Type 0
  IsStoreValid s = AreValid std s.listeners s.backend_pools s.routing_rules

  module _ {ls : List Listener} {ps : List BackendPool} {rs : List RoutingRule} where
    pub AreValid-parts :
        AreListeners ls → ArePools std ps → AreRules std ls ps rs → AreValid std ls ps rs
    unfolding AreListeners ArePools AreRules
    AreValid-parts l p r = record {
      listeners = l.0;
      listeners_apart = l.1;
      pools = p.0;
      pools_apart = p.1;
      rules = r.0;
      rules_apart = r.1;
    }

    pub AreValid-AreListeners : AreValid std ls ps rs → AreListeners ls
    unfolding AreListeners
    AreValid-AreListeners v = (v.listeners, v.listeners_apart)

    pub AreValid-ArePools : AreValid std ls ps rs → ArePools std ps
    unfolding ArePools
    AreValid-ArePools v = (v.pools, v.pools_apart)

    pub AreValid-AreRules : AreValid std ls ps rs → AreRules std ls ps rs
    unfolding AreRules
    AreValid-AreRules v = (v.rules, v.rules_apart)

  -- New listeners with which every rule finds what it found.
  pub put_listeners-AreValid :
      {ls : List Listener} {ps : List BackendPool} {rs : List RoutingRule} (ls' : List Listener)
      → AreValid std ls ps rs
      → AreListeners ls'
      → All (λ r. FindsListener r.listener_id ls ls') rs
      → AreValid std ls' ps rs
  put_listeners-AreValid {ls} {ps} {rs} ls' v good keep =
      AreValid-parts good (AreValid-ArePools v) (
        AreRules-mono std ls ls' ps ps rs (All-mono _ _ (λ r k. (k, λ h. h)) rs keep)
          (AreValid-AreRules v))

  pub put_pools-AreValid :
      {ls : List Listener} {ps : List BackendPool} {rs : List RoutingRule} (ps' : List BackendPool)
      → AreValid std ls ps rs
      → ArePools std ps'
      → All (λ r. FindsPool r.backend_pool_id ps ps') rs
      → AreValid std ls ps' rs
  put_pools-AreValid {ls} {ps} {rs} ps' v good keep =
      AreValid-parts (AreValid-AreListeners v) good (
        AreRules-mono std ls ls ps ps' rs (All-mono _ _ (λ r k. (λ h. h, k)) rs keep)
          (AreValid-AreRules v))

  pub add_listener_change-IsStoreValid :
      (now : ℕ → ℕ) (raw : Listener) (s : Store) {c : Listener} {s' : Store}
      → add_listener_change now raw s ≡ ok (c, s')
      → IsStoreValid s
      → IsStoreValid s'
  unfolding add_listener_change
  add_listener_change-IsStoreValid now raw s {s'} h v =
      let ((c, ls'), added, done) = >>=-eq-ok (add_listener_locked now raw s.listeners) _ h in
      let (good, grown) =
        add_listener_locked-AreListeners now raw s.listeners added (AreValid-AreListeners v) in
      let same : put_listeners s ls' ≡ s' = ground arith in
      subst IsStoreValid same (
        put_listeners-AreValid ls' v good
          (rw grown (every_rule _ λ r. FindsListener-append r.listener_id s.listeners _)))

  pub add_pool_change-IsStoreValid :
      (now : ℕ → ℕ) (raw : BackendPool) (s : Store) {c : BackendPool} {s' : Store}
      → add_pool_change std now raw s ≡ ok (c, s')
      → IsStoreValid s
      → IsStoreValid s'
  unfolding add_pool_change
  add_pool_change-IsStoreValid now raw s {s'} h v =
      let ((c, ps'), added, done) =
        >>=-eq-ok (add_backend_pool_locked std now raw s.backend_pools) _ h in
      let (good, grown) =
        add_backend_pool_locked-ArePools std now raw s.backend_pools added (AreValid-ArePools v) in
      let same : put_pools s ps' ≡ s' = ground arith in
      subst IsStoreValid same (
        put_pools-AreValid ps' v good
          (rw grown (every_rule _ λ r. FindsPool-append r.backend_pool_id s.backend_pools _)))

  pub add_rule_change-IsStoreValid :
      (now : ℕ → ℕ) (raw : RoutingRule) (s : Store) {c : RoutingRule} {s' : Store}
      → add_rule_change std now raw s ≡ ok (c, s')
      → IsStoreValid s
      → IsStoreValid s'
  unfolding add_rule_change
  add_rule_change-IsStoreValid now raw s {s'} h v =
      let ((c, rs'), added, done) =
        >>=-eq-ok (add_routing_rule_locked std s.listeners s.backend_pools now raw s.routing_rules)
          _ h in
      let (good, grown) =
        add_routing_rule_locked-AreRules std _ _ now raw s.routing_rules added
          (AreValid-AreRules v) in
      let same : put_rules s rs' ≡ s' = ground arith in
      subst IsStoreValid same (AreValid-parts (AreValid-AreListeners v) (AreValid-ArePools v) good)

  -- What normalizeResourcesLocked accepts is valid.
  pub normalize_resources_locked-IsStoreValid :
      (s : Store) {s' : Store} → normalize_resources_locked std s ≡ ok s' → IsStoreValid s'
  unfolding normalize_resources_locked AreListeners ArePools AreRules
  normalize_resources_locked-IsStoreValid s {s'} h =
      let (ls, l, h1) = >>=-eq-ok (normalize_listeners [] s.listeners) _ h in
      let (ps, p, h2) = >>=-eq-ok (normalize_pools std [] s.backend_pools) _ h1 in
      let (rs, r, h3) = >>=-eq-ok (normalize_rules std ls ps [] s.routing_rules) _ h2 in
      let same : record s { listeners = ls; backend_pools = ps; routing_rules = rs } ≡ s' =
        ground arith in
      subst IsStoreValid same (
        AreValid-parts (normalize_listeners-AreListeners [] s.listeners l (tt, tt))
          (normalize_pools-ArePools std [] s.backend_pools p (tt, tt))
          (normalize_rules-AreRules std ls ps [] s.routing_rules r (tt, tt)))
