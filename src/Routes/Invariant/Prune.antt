-- ===== src/Routes/Invariant/Prune.antt =====
-- Removing a compatibility rule, and pruning the resources that it leaves unused, keeps the rest valid.
use caddy_reverse_proxy.Common.{
  ◌≡◌, any, Bool, true, false, List, [], ◌∷◌, arith, Option, if◌then◌else◌, none, some, All,
  delete_first, refl,
}
use caddy_reverse_proxy.Text.{Text}
use caddy_reverse_proxy.Common.Lists.Laws.{delete_first-Deleted, All-mono}
use caddy_reverse_proxy.Model.{Listener, BackendPool, RoutingRule}
use caddy_reverse_proxy.Routes.Std.{Std}
use caddy_reverse_proxy.Routes.Listeners.{find_listener, listener_has_id, delete_listener_by_id}
use caddy_reverse_proxy.Routes.Pools.{find_backend_pool, pool_has_id, delete_backend_pool_by_id}
use caddy_reverse_proxy.Routes.Rules.{
  references_listener, references_pool, rule_has_id, delete_routing_rule_by_id,
}
use caddy_reverse_proxy.Routes.Store.{Store}
use caddy_reverse_proxy.Routes.Operations.{put_listeners, put_pools, put_rules}
use caddy_reverse_proxy.Routes.Invariant.Listeners.{AreListeners-Deleted}
use caddy_reverse_proxy.Routes.Invariant.Pools.{ArePools-Deleted}
use caddy_reverse_proxy.Routes.Invariant.Rules.{AreRules-Deleted}
use caddy_reverse_proxy.Routes.Invariant.Lookups.{FindsListener-Deleted, FindsPool-Deleted}
use caddy_reverse_proxy.Routes.Invariant.Changes.{
  IsStoreValid, add_listener_change-IsStoreValid, add_pool_change-IsStoreValid,
  add_rule_change-IsStoreValid, AreValid-parts, AreValid-AreListeners, AreValid-ArePools,
  AreValid-AreRules, put_listeners-AreValid, put_pools-AreValid,
}
use caddy_reverse_proxy.Routes.Compat.Pruning.{
  or_kept, prune_pool, prune_listener, prune_resources, remove_rule, prune_found_pool,
  prune_found_listener,
}
use caddy_reverse_proxy.Routes.Invariant.Compat.{IsStable}

any-eq-false {ℓ} :
    {A : Type ℓ} (p : A → Bool) (xs : List A) → any p xs ≡ false → All (λ x. p x ≡ false) xs
unfolding any
any-eq-false p [] h = tt
any-eq-false p (x ∷ xs) h = (ground arith, any-eq-false p xs (ground arith))

module _ (std : Std) where
  pub IsStoreValid-IsStable : IsStable std (IsStoreValid std)
  IsStoreValid-IsStable = record {
    listener = λ now l s c s' e h. add_listener_change-IsStoreValid std now l s e h;
    pool = λ now p s c s' e h. add_pool_change-IsStoreValid std now p s e h;
    rule = λ now r s c s' e h. add_rule_change-IsStoreValid std now r s e h;
    routes = λ s routes h. h;
  }

  kept_pools-IsStoreValid :
      (id : Text) (s : Store) (o : Option (List BackendPool))
      → delete_first (pool_has_id id) s.backend_pools ≡ o
      → any (references_pool id) s.routing_rules ≡ false
      → IsStoreValid std s
      → IsStoreValid std (put_pools s (or_kept s.backend_pools o))
  unfolding references_pool
  kept_pools-IsStoreValid id s none e unused v = v
  kept_pools-IsStoreValid id s (some ps') e unused v =
      let done = delete_first-Deleted (pool_has_id id) s.backend_pools e in
      put_pools-AreValid std ps' v (ArePools-Deleted std _ done (AreValid-ArePools std v)) (
        All-mono _ _ (λ r. FindsPool-Deleted r.backend_pool_id id done) s.routing_rules
          (any-eq-false (references_pool id) s.routing_rules unused))

  kept_listeners-IsStoreValid :
      (id : Text) (s : Store) (o : Option (List Listener))
      → delete_first (listener_has_id id) s.listeners ≡ o
      → any (references_listener id) s.routing_rules ≡ false
      → IsStoreValid std s
      → IsStoreValid std (put_listeners s (or_kept s.listeners o))
  unfolding references_listener
  kept_listeners-IsStoreValid id s none e unused v = v
  kept_listeners-IsStoreValid id s (some ls') e unused v =
      let done = delete_first-Deleted (listener_has_id id) s.listeners e in
      put_listeners-AreValid std ls' v (AreListeners-Deleted _ done (AreValid-AreListeners std v)) (
        All-mono _ _ (λ r. FindsListener-Deleted r.listener_id id done) s.routing_rules
          (any-eq-false (references_listener id) s.routing_rules unused))

  -- A property of stores holds of a branch if it holds of both.
  if-store :
      (P : Store → Type 0) (b : Bool) (s s' : Store)
      → (b ≡ true → P s)
      → (b ≡ false → P s')
      → P (if b then s else s')
  if-store P true s s' h k = h refl
  if-store P false s s' h k = k refl

  prune_found_pool-IsStoreValid :
      (id : Text) (s : Store) (o : Option BackendPool)
      → any (references_pool id) s.routing_rules ≡ false
      → IsStoreValid std s
      → IsStoreValid std (prune_found_pool id s o)
  unfolding prune_found_pool delete_backend_pool_by_id
  prune_found_pool-IsStoreValid id s none unused v = v
  prune_found_pool-IsStoreValid id s (some p) unused v =
      if-store (IsStoreValid std) _ _ _
        (λ _.
          kept_pools-IsStoreValid id s (delete_first (pool_has_id id) s.backend_pools) refl unused
            v)
        (λ _. v)

  pub prune_pool-IsStoreValid :
      (id : Text) (s : Store) → IsStoreValid std s → IsStoreValid std (prune_pool id s)
  unfolding prune_pool
  prune_pool-IsStoreValid id s v =
      if-store (IsStoreValid std) _ _ _ (λ _. v)
        (λ unused.
          prune_found_pool-IsStoreValid id s (find_backend_pool s.backend_pools id) unused v)

  prune_found_listener-IsStoreValid :
      (id : Text) (s : Store) (o : Option Listener)
      → any (references_listener id) s.routing_rules ≡ false
      → IsStoreValid std s
      → IsStoreValid std (prune_found_listener id s o)
  unfolding prune_found_listener delete_listener_by_id
  prune_found_listener-IsStoreValid id s none unused v = v
  prune_found_listener-IsStoreValid id s (some l) unused v =
      if-store (IsStoreValid std) _ _ _
        (λ _.
          kept_listeners-IsStoreValid id s (delete_first (listener_has_id id) s.listeners) refl
            unused v)
        (λ _. v)

  pub prune_listener-IsStoreValid :
      (id : Text) (s : Store) → IsStoreValid std s → IsStoreValid std (prune_listener id s)
  unfolding prune_listener
  prune_listener-IsStoreValid id s v =
      if-store (IsStoreValid std) _ _ _ (λ _. v)
        (λ unused. prune_found_listener-IsStoreValid id s (find_listener s.listeners id) unused v)

  kept_rules-IsStoreValid :
      (id : Text) (s : Store) (o : Option (List RoutingRule))
      → delete_first (rule_has_id id) s.routing_rules ≡ o
      → IsStoreValid std s
      → IsStoreValid std (put_rules s (or_kept s.routing_rules o))
  kept_rules-IsStoreValid id s none e v = v
  kept_rules-IsStoreValid id s (some rs') e v =
      AreValid-parts std (AreValid-AreListeners std v) (AreValid-ArePools std v) (
        AreRules-Deleted std _ _ _ (delete_first-Deleted (rule_has_id id) s.routing_rules e)
          (AreValid-AreRules std v))

  pub remove_rule-IsStoreValid :
      (old : RoutingRule) (id : Text) (s : Store)
      → IsStoreValid std s
      → IsStoreValid std (remove_rule old id s)
  unfolding remove_rule prune_resources delete_routing_rule_by_id
  remove_rule-IsStoreValid old id s v = prune_listener-IsStoreValid old.listener_id _ (
      prune_pool-IsStoreValid old.backend_pool_id _
        (kept_rules-IsStoreValid id s (delete_first (rule_has_id id) s.routing_rules) refl v))
