-- ===== src/Routes/Invariant/Rules.antt =====
-- The rule operations keep rules valid and apart, and the resource operations keep them valid.
use caddy_reverse_proxy.Common.{
  ℕ, ◌≡◌, sym, subst, any, ◌≢◌, Bool, true, false, List, [], ◌∷◌, ◌++◌, ok, arith, All, Distinct,
  is_some,
}
use caddy_reverse_proxy.Common.Int.{InRange-of_tests}
use caddy_reverse_proxy.Text.{Text, codes}
use caddy_reverse_proxy.Common.Lists.Laws.{
  All-append_one, Distinct-append_one, Replaced, Deleted, All-Replaced, Distinct-Replaced,
  All-Deleted, Distinct-Deleted,
}
use caddy_reverse_proxy.Text.Laws.{==_iff}
use caddy_reverse_proxy.Model.{Listener, BackendPool, RoutingRule}
use caddy_reverse_proxy.Routes.Std.{Std}
use caddy_reverse_proxy.Routes.Listeners.{find_listener}
use caddy_reverse_proxy.Routes.Pools.{find_backend_pool}
use caddy_reverse_proxy.Routes.Rules.{
  normalize_routing_rule, rule_has_id, complete_rule, validate_rule_fields, validate_routing_rule,
  add_routing_rule_locked, normalize_rules,
}
use caddy_reverse_proxy.Routes.Invariant.{IsRule, RulesApart}
use caddy_reverse_proxy.Routes.Invariant.Listeners.{id_or_next-ne-nil}
use caddy_reverse_proxy.Routes.Invariant.Paths.{
  SamePath, check_rule_paths-All, check_new_rule-All, RulesApart-single,
}

RulesApart-symm : (x y : RoutingRule) → RulesApart x y → RulesApart y x
RulesApart-symm x y (ids, paths) =
    (λ e. ids (sym e), λ (listener, path). paths (sym listener, sym path))

complete_rule-id : (now : ℕ → ℕ) (raw : RoutingRule) → (complete_rule now raw).id ≢ []
unfolding complete_rule
complete_rule-id now raw = id_or_next-ne-nil _ _ _ _

module _ (std : Std) where
  module _ (ls : List Listener) (ps : List BackendPool) where
    pub validate_rule_fields-IsRule :
        (r : RoutingRule)
        → r.id ≢ []
        → validate_rule_fields std ls ps r ≡ ok tt
        → IsRule std ls ps r
    unfolding validate_rule_fields
    validate_rule_fields-IsRule r id h = record {
      id = id;
      name = ground (arith, ==_iff r.name []);
      listener = ground arith;
      pool = ground arith;
      port = InRange-of_tests 1 r.backend_port 65535 (ground arith) (ground arith);
      protocol = ground (
        arith,
        ==_iff r.backend_protocol (codes "http"),
        ==_iff r.backend_protocol (codes "https"),
      );
      path = ground (arith, ==_iff r.path_prefix []);
      security = ground arith;
    }

    unfoldable pub AreRules : List RoutingRule → Type 0
    AreRules rs = All (IsRule std ls ps) rs × Distinct RulesApart rs

    IsRule-updated :
        (r : RoutingRule) (e : Text) (n : ℕ)
        → IsRule std ls ps r
        → IsRule std ls ps (record r { last_error = e; last_updated = n })
    IsRule-updated r e n h = record {
      id = h.id;
      name = h.name;
      listener = h.listener;
      pool = h.pool;
      port = h.port;
      protocol = h.protocol;
      path = h.path;
      security = h.security;
    }

    AreRules-append :
        (r : RoutingRule) (rs : List RoutingRule)
        → AreRules rs
        → IsRule std ls ps r
        → All (λ e. RulesApart e r) rs
        → AreRules (rs ++ r ∷ [])
    unfolding AreRules
    AreRules-append r rs (valid, apart) is new = (
      All-append_one (IsRule std ls ps) rs valid is,
      Distinct-append_one RulesApart rs r apart new,
    )

    -- Rules that have IDs, none of them the new one's, pass the path check as apart.
    new_rule-Apart :
        (r : RoutingRule) (rs : List RoutingRule)
        → All (IsRule std ls ps) rs
        → All (λ e. e.id ≢ r.id) rs
        → All (λ e. e.id ≢ [] → ¬ SamePath e r) rs
        → All (λ e. RulesApart e r) rs
    new_rule-Apart r [] valid ids paths = tt
    new_rule-Apart r (e ∷ es) (v, valid) (i, ids) (p, paths) =
        ((i, p v.id), new_rule-Apart r es valid ids paths)

    pub add_routing_rule_locked-AreRules :
        (now : ℕ → ℕ) (raw : RoutingRule) (rs : List RoutingRule) {c : RoutingRule}
        {rs' : List RoutingRule}
        → add_routing_rule_locked std ls ps now raw rs ≡ ok (c, rs')
        → AreRules rs
        → AreRules rs' × (rs' ≡ rs ++ c ∷ [])
    unfolding add_routing_rule_locked validate_routing_rule AreRules
    add_routing_rule_locked-AreRules now raw rs {c} {rs'} h valid =
        let r = complete_rule now raw in
        let u = record r { last_updated = now 7 } in
        let is : IsRule std ls ps r =
          validate_rule_fields-IsRule r (complete_rule-id now raw) (ground arith) in
        let grown : AreRules (rs ++ u ∷ []) =
          AreRules-append u rs valid (IsRule-updated r r.last_error (now 7) is) (
            new_rule-Apart u rs valid.0 (check_new_rule-All r rs (ground arith))
              (check_rule_paths-All r [] rs (ground arith))) in
        let list : rs' ≡ rs ++ u ∷ [] = ground arith in
        let created : c ≡ u = ground arith in (rw list grown, rw (list, created))

    others_apart :
        (r : RoutingRule) (rs : List RoutingRule)
        → All (λ e. e.id ≢ r.id → ¬ SamePath e r) rs
        → All (λ e. rule_has_id r.id e ≡ false → RulesApart e r) rs
    others_apart r [] h = tt
    others_apart r (e ∷ es) (p, h) = (
      λ other. let ne : e.id ≢ r.id = ground (arith, ==_iff e.id r.id) in (ne, p ne),
      others_apart r es h,
    )

    -- The rule that ReplaceRoutingRule writes.
    pub AreRules-Replaced :
        (r : RoutingRule) (e : Text) (n : ℕ) {rs rs' : List RoutingRule}
        → Replaced (rule_has_id r.id) (record r { last_error = e; last_updated = n }) rs rs'
        → AreRules rs
        → r.id ≢ []
        → validate_routing_rule std ls ps r r.id rs ≡ ok tt
        → AreRules rs'
    unfolding AreRules validate_routing_rule
    AreRules-Replaced r e n {rs} done (valid, apart) id h =
        let u = record r { last_error = e; last_updated = n } in
        (
          All-Replaced (IsRule std ls ps) _ u done valid
              (IsRule-updated r e n (validate_rule_fields-IsRule r id (ground arith))),
          Distinct-Replaced RulesApart _ u (RulesApart-single r.id) RulesApart-symm done apart
              (others_apart u rs (check_rule_paths-All r r.id rs (ground arith))),
        )

    pub AreRules-Deleted :
        (q : RoutingRule → Bool) {rs rs' : List RoutingRule}
        → Deleted q rs rs'
        → AreRules rs
        → AreRules rs'
    unfolding AreRules
    AreRules-Deleted q r (valid, apart) =
        (All-Deleted (IsRule std ls ps) q r valid, Distinct-Deleted RulesApart q r apart)

    -- In the rule pass: the rules before the index are apart from the one at it.
    unseen_rule :
        (r : RoutingRule) (done rest : List RoutingRule)
        → any (rule_has_id r.id) done ≡ false
        → All (λ e. e.id ≢ r.id → ¬ SamePath e r) (done ++ rest)
        → All (λ e. RulesApart e r) done
    unfolding any
    unseen_rule r [] rest h k = tt
    unseen_rule r (e ∷ es) rest h (p, k) =
        let ne : e.id ≢ r.id = ground (arith, ==_iff e.id r.id) in
        ((ne, p ne), unseen_rule r es rest (ground arith) k)

    -- The rules that pass normalizeResourcesLocked are valid and apart.
    pub normalize_rules-AreRules :
        (done rest : List RoutingRule) {rs : List RoutingRule}
        → normalize_rules std ls ps done rest ≡ ok rs
        → AreRules done
        → AreRules rs
    unfolding normalize_rules validate_routing_rule
    normalize_rules-AreRules done [] h valid = subst AreRules (ground arith) valid
    normalize_rules-AreRules done (raw ∷ rest) h valid =
        let r = normalize_routing_rule raw in
        let id : r.id ≢ [] = ground (arith, ==_iff r.id []) in
        normalize_rules-AreRules (done ++ r ∷ []) rest (ground arith) (
          AreRules-append r done valid (validate_rule_fields-IsRule r id (ground arith)) (
            unseen_rule r done (r ∷ rest) (ground arith)
              (check_rule_paths-All r r.id (done ++ r ∷ rest) (ground arith))))

  -- Rules stay valid while each listener and pool that they name can be found.
  pub AreRules-mono :
      (ls ls' : List Listener) (ps ps' : List BackendPool) (rs : List RoutingRule)
      → All
          (λ r.
            (is_some (find_listener ls r.listener_id) ≡ true
              → is_some (find_listener ls' r.listener_id) ≡ true)
            × (is_some (find_backend_pool ps r.backend_pool_id) ≡ true
                → is_some (find_backend_pool ps' r.backend_pool_id) ≡ true))
          rs
      → AreRules ls ps rs
      → AreRules ls' ps' rs
  unfolding AreRules
  AreRules-mono ls ls' ps ps' rs keep (valid, apart) = (go rs keep valid, apart)
    where
      go :
          (qs : List RoutingRule)
          → All
              (λ r.
                (is_some (find_listener ls r.listener_id) ≡ true
                  → is_some (find_listener ls' r.listener_id) ≡ true)
                × (is_some (find_backend_pool ps r.backend_pool_id) ≡ true
                    → is_some (find_backend_pool ps' r.backend_pool_id) ≡ true))
              qs
          → All (IsRule std ls ps) qs
          → All (IsRule std ls' ps') qs
      go [] k v = tt
      go (q ∷ qs) ((kl, kp), k) (v, vs) = (
        record {
          id = v.id;
          name = v.name;
          listener = kl v.listener;
          pool = kp v.pool;
          port = v.port;
          protocol = v.protocol;
          path = v.path;
          security = v.security;
        },
        go qs k vs,
      )
