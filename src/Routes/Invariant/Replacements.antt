-- ===== src/Routes/Invariant/Replacements.antt =====
-- The replacements of a listener, a pool or a rule keep the resources valid.
use caddy_reverse_proxy.Common.{
  ℕ, ◌≡◌, subst, ◌≢◌, List, [], ok, arith, Option-cases, inl, inr, some, replace_first,
}
use caddy_reverse_proxy.Common.Lists.Laws.{replace_first-Replaced}
use caddy_reverse_proxy.Text.Laws.{==_iff}
use caddy_reverse_proxy.Model.{Listener, BackendPool, RoutingRule}
use caddy_reverse_proxy.Routes.Std.{Std}
use caddy_reverse_proxy.Routes.Listeners.{
  listener_has_id, validate_listener, normalize_listener, check_replaced_listener,
}
use caddy_reverse_proxy.Routes.Pools.{
  pool_has_id, validate_backend_pool, normalize_backend_pool, check_replaced_pool,
}
use caddy_reverse_proxy.Routes.Rules.{
  rule_has_id, normalize_routing_rule, validate_routing_rule, find_routing_rule,
}
use caddy_reverse_proxy.Routes.Store.{Store}
use caddy_reverse_proxy.Routes.Operations.{
  or_not_found, put_listeners, put_pools, put_rules, replace_listener_change, replace_pool_change,
  replace_rule_change,
}
use caddy_reverse_proxy.Routes.Invariant.Listeners.{
  AreListeners-Replaced, check_replaced_listener-Apart, validate_listener-IsListener,
  IsListener-updated,
}
use caddy_reverse_proxy.Routes.Invariant.Pools.{
  ArePools-Replaced, check_replaced_pool-Apart, validate_backend_pool-IsPool, IsPool-updated,
}
use caddy_reverse_proxy.Routes.Invariant.Rules.{AreRules-Replaced}
use caddy_reverse_proxy.Routes.Invariant.Lookups.{
  every_rule, FindsListener-Replaced, FindsPool-Replaced,
}
use caddy_reverse_proxy.Routes.Invariant.Changes.{
  IsStoreValid, AreValid-parts, AreValid-AreListeners, AreValid-ArePools, AreValid-AreRules,
  put_listeners-AreValid, put_pools-AreValid,
}

module _ (std : Std) where
  -- What a successful ReplaceListener has checked and written.
  replace_listener_change-eq-ok :
      (now : ℕ → ℕ) (raw : Listener) (s : Store) {c : Listener} {s' : Store}
      → replace_listener_change now raw s ≡ ok (c, s')
      → (ls' : List Listener) × (replace_first
            (listener_has_id raw.id)
            (record (normalize_listener raw) { last_updated = now 0 })
            s.listeners
          ≡ some ls')
        × (put_listeners s ls' ≡ s')
        × (raw.id ≢ [])
        × (validate_listener (normalize_listener raw) ≡ ok tt)
        × (check_replaced_listener (normalize_listener raw) s.listeners ≡ ok tt)
  unfolding replace_listener_change or_not_found normalize_listener
  replace_listener_change-eq-ok now raw s h =
      elim (Option-cases (
        replace_first (listener_has_id raw.id)
          (record (normalize_listener raw) { last_updated = now 0 }) s.listeners)) [
            | inl missing ↦ absurd (ground arith)
            | inr (ls', found) ↦ (
              ls',
              found,
              ground arith,
              ground (arith, ==_iff raw.id []),
              ground arith,
              ground arith,
            )
          ]

  pub replace_listener_change-IsStoreValid :
      (now : ℕ → ℕ) (raw : Listener) (s : Store) {c : Listener} {s' : Store}
      → replace_listener_change now raw s ≡ ok (c, s')
      → IsStoreValid std s
      → IsStoreValid std s'
  unfolding normalize_listener
  replace_listener_change-IsStoreValid now raw s h v =
      let l = normalize_listener raw in
      let u = record l { last_updated = now 0 } in
      let (ls', found, same, id, valid, others) = replace_listener_change-eq-ok now raw s h in
      let done = replace_first-Replaced (listener_has_id l.id) u s.listeners found in
      subst (IsStoreValid std) same (
        put_listeners-AreValid std ls' v
          (AreListeners-Replaced u done (AreValid-AreListeners std v)
            (IsListener-updated l (now 0) (validate_listener-IsListener l id valid))
            (check_replaced_listener-Apart l s.listeners others))
          (every_rule _ λ r. FindsListener-Replaced r.listener_id u done))

  -- What a successful ReplaceBackendPool has checked and written.
  replace_pool_change-eq-ok :
      (now : ℕ → ℕ) (raw : BackendPool) (s : Store) {c : BackendPool} {s' : Store}
      → replace_pool_change std now raw s ≡ ok (c, s')
      → (ps' : List BackendPool) × (replace_first
            (pool_has_id raw.id)
            (record (normalize_backend_pool raw) { last_updated = now 0 })
            s.backend_pools
          ≡ some ps')
        × (put_pools s ps' ≡ s')
        × (raw.id ≢ [])
        × (validate_backend_pool std (normalize_backend_pool raw) ≡ ok tt)
        × (check_replaced_pool (normalize_backend_pool raw) s.backend_pools ≡ ok tt)
  unfolding replace_pool_change or_not_found normalize_backend_pool
  replace_pool_change-eq-ok now raw s h =
      elim (Option-cases (
        replace_first (pool_has_id raw.id)
          (record (normalize_backend_pool raw) { last_updated = now 0 }) s.backend_pools)) [
            | inl missing ↦ absurd (ground arith)
            | inr (ps', found) ↦ (
              ps',
              found,
              ground arith,
              ground (arith, ==_iff raw.id []),
              ground arith,
              ground arith,
            )
          ]

  pub replace_pool_change-IsStoreValid :
      (now : ℕ → ℕ) (raw : BackendPool) (s : Store) {c : BackendPool} {s' : Store}
      → replace_pool_change std now raw s ≡ ok (c, s')
      → IsStoreValid std s
      → IsStoreValid std s'
  unfolding normalize_backend_pool
  replace_pool_change-IsStoreValid now raw s h v =
      let p = normalize_backend_pool raw in
      let u = record p { last_updated = now 0 } in
      let (ps', found, same, id, valid, others) = replace_pool_change-eq-ok now raw s h in
      let done = replace_first-Replaced (pool_has_id p.id) u s.backend_pools found in
      subst (IsStoreValid std) same (
        put_pools-AreValid std ps' v
          (ArePools-Replaced std u done (AreValid-ArePools std v)
            (IsPool-updated std p (now 0) (validate_backend_pool-IsPool std p id valid))
            (check_replaced_pool-Apart p s.backend_pools others))
          (every_rule _ λ r. FindsPool-Replaced r.backend_pool_id u done))

  abbrev written_rule : (ℕ → ℕ) → RoutingRule → RoutingRule → RoutingRule
  written_rule now raw old = record (normalize_routing_rule raw) {
    last_error = old.last_error;
    last_updated = now 0;
  }

  -- What a successful ReplaceRoutingRule has checked and written.
  replace_rule_change-eq-ok :
      (now : ℕ → ℕ) (raw : RoutingRule) (s : Store) {c : RoutingRule} {s' : Store}
      → replace_rule_change std now raw s ≡ ok (c, s')
      → (old : RoutingRule) × (rs' : List RoutingRule) × (replace_first
            (rule_has_id raw.id)
            (written_rule now raw old)
            s.routing_rules
          ≡ some rs')
        × (put_rules s rs' ≡ s')
        × (raw.id ≢ [])
        × (validate_routing_rule std s.listeners s.backend_pools
              (normalize_routing_rule raw)
              raw.id
              s.routing_rules
            ≡ ok tt)
  unfolding replace_rule_change or_not_found normalize_routing_rule
  replace_rule_change-eq-ok now raw s h =
      elim (Option-cases (find_routing_rule s.routing_rules raw.id)) [
        | inl missing ↦ absurd (ground arith)
        | inr (old, there) ↦
            elim (Option-cases
              (replace_first (rule_has_id raw.id) (written_rule now raw old) s.routing_rules)) [
                | inl missing ↦ absurd (ground arith)
                | inr (rs', found) ↦
                    (old, rs', found, ground arith, ground (arith, ==_iff raw.id []), ground arith)
              ]
      ]

  pub replace_rule_change-IsStoreValid :
      (now : ℕ → ℕ) (raw : RoutingRule) (s : Store) {c : RoutingRule} {s' : Store}
      → replace_rule_change std now raw s ≡ ok (c, s')
      → IsStoreValid std s
      → IsStoreValid std s'
  unfolding normalize_routing_rule
  replace_rule_change-IsStoreValid now raw s h v =
      let r = normalize_routing_rule raw in
      let (old, rs', found, same, id, valid) = replace_rule_change-eq-ok now raw s h in
      let u = written_rule now raw old in
      subst (IsStoreValid std) same (
        AreValid-parts std (AreValid-AreListeners std v) (AreValid-ArePools std v) (
          AreRules-Replaced std s.listeners s.backend_pools r old.last_error (now 0)
            (replace_first-Replaced (rule_has_id r.id) u s.routing_rules found)
            (AreValid-AreRules std v) id valid))
