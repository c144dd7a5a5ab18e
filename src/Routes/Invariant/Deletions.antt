-- ===== src/Routes/Invariant/Deletions.antt =====
-- The deletions keep the resources valid: nothing that a rule names is deleted.
use caddy_reverse_proxy.Common.{
  ◌≡◌, subst, false, List, ok, arith, Option-cases, inl, inr, some, All, delete_first,
}
use caddy_reverse_proxy.Text.{Text}
use caddy_reverse_proxy.Common.Lists.Laws.{delete_first-Deleted, All-mono}
use caddy_reverse_proxy.Model.{Listener, BackendPool}
use caddy_reverse_proxy.Routes.Errors.{used_by, listener, pool}
use caddy_reverse_proxy.Routes.Std.{Std}
use caddy_reverse_proxy.Routes.Listeners.{listener_has_id, delete_listener_by_id}
use caddy_reverse_proxy.Routes.Pools.{pool_has_id, delete_backend_pool_by_id}
use caddy_reverse_proxy.Routes.Rules.{
  references_listener, references_pool, rule_has_id, delete_routing_rule_by_id,
}
use caddy_reverse_proxy.Routes.Store.{Store}
use caddy_reverse_proxy.Routes.Operations.{
  or_not_found, put_listeners, put_pools, put_rules, delete_listener_change, delete_pool_change,
  delete_rule_change,
}
use caddy_reverse_proxy.Routes.Invariant.Listeners.{AreListeners-Deleted}
use caddy_reverse_proxy.Routes.Invariant.Pools.{ArePools-Deleted}
use caddy_reverse_proxy.Routes.Invariant.Rules.{AreRules-Deleted}
use caddy_reverse_proxy.Routes.Invariant.Lookups.{
  FindsListener-Deleted, FindsPool-Deleted, check_unused-All,
}
use caddy_reverse_proxy.Routes.Invariant.Changes.{
  IsStoreValid, AreValid-parts, AreValid-AreListeners, AreValid-ArePools, AreValid-AreRules,
  put_listeners-AreValid, put_pools-AreValid,
}

module _ (std : Std) where
  pub delete_listener_change-eq-ok :
      (id : Text) (s : Store) {s' : Store}
      → delete_listener_change id s ≡ ok (tt, s')
      → (ls' : List Listener) × (delete_first (listener_has_id id) s.listeners ≡ some ls')
        × (put_listeners s ls' ≡ s')
        × All (λ r. references_listener id r ≡ false) s.routing_rules
  unfolding delete_listener_change or_not_found delete_listener_by_id
  delete_listener_change-eq-ok id s h =
      elim (Option-cases (delete_first (listener_has_id id) s.listeners)) [
        | inl missing ↦ absurd (ground arith)
        | inr (ls', found) ↦ (
          ls',
          found,
          ground arith,
          check_unused-All (references_listener id) (used_by listener id) s.routing_rules
              (ground arith),
        )
      ]

  pub delete_listener_change-IsStoreValid :
      (id : Text) (s : Store) {s' : Store}
      → delete_listener_change id s ≡ ok (tt, s')
      → IsStoreValid std s
      → IsStoreValid std s'
  unfolding references_listener
  delete_listener_change-IsStoreValid id s h v =
      let (ls', found, same, unused) = delete_listener_change-eq-ok id s h in
      let done = delete_first-Deleted (listener_has_id id) s.listeners found in
      subst (IsStoreValid std) same (
        put_listeners-AreValid std ls' v (AreListeners-Deleted _ done (AreValid-AreListeners std v))
          (All-mono _ _ (λ r. FindsListener-Deleted r.listener_id id done) s.routing_rules unused))

  delete_pool_change-eq-ok :
      (id : Text) (s : Store) {s' : Store}
      → delete_pool_change id s ≡ ok (tt, s')
      → (ps' : List BackendPool) × (delete_first (pool_has_id id) s.backend_pools ≡ some ps')
        × (put_pools s ps' ≡ s')
        × All (λ r. references_pool id r ≡ false) s.routing_rules
  unfolding delete_pool_change or_not_found delete_backend_pool_by_id
  delete_pool_change-eq-ok id s h =
      elim (Option-cases (delete_first (pool_has_id id) s.backend_pools)) [
        | inl missing ↦ absurd (ground arith)
        | inr (ps', found) ↦ (
          ps',
          found,
          ground arith,
          check_unused-All (references_pool id) (used_by pool id) s.routing_rules (ground arith),
        )
      ]

  pub delete_pool_change-IsStoreValid :
      (id : Text) (s : Store) {s' : Store}
      → delete_pool_change id s ≡ ok (tt, s')
      → IsStoreValid std s
      → IsStoreValid std s'
  unfolding references_pool
  delete_pool_change-IsStoreValid id s h v =
      let (ps', found, same, unused) = delete_pool_change-eq-ok id s h in
      let done = delete_first-Deleted (pool_has_id id) s.backend_pools found in
      subst (IsStoreValid std) same (
        put_pools-AreValid std ps' v (ArePools-Deleted std _ done (AreValid-ArePools std v))
          (All-mono _ _ (λ r. FindsPool-Deleted r.backend_pool_id id done) s.routing_rules unused))

  pub delete_rule_change-IsStoreValid :
      (id : Text) (s : Store) {s' : Store}
      → delete_rule_change id s ≡ ok (tt, s')
      → IsStoreValid std s
      → IsStoreValid std s'
  unfolding delete_rule_change or_not_found delete_routing_rule_by_id
  delete_rule_change-IsStoreValid id s {s'} h v =
      elim (Option-cases (delete_first (rule_has_id id) s.routing_rules)) [
        | inl missing ↦ absurd (ground arith)
        | inr (rs', found) ↦
            let same : put_rules s rs' ≡ s' = ground arith in
            subst (IsStoreValid std) same (
              AreValid-parts std (AreValid-AreListeners std v) (AreValid-ArePools std v) (
                AreRules-Deleted std _ _ _
                  (delete_first-Deleted (rule_has_id id) s.routing_rules found)
                  (AreValid-AreRules std v)))
      ]
