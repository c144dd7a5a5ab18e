-- ===== src/Routes/Invariant/Compat.antt =====
-- The compatibility routes: what each step of a migration keeps, the whole migration keeps.
use caddy_reverse_proxy.Common.{ℕ, ◌≡◌, Option, none, some, List, ok, err, Result}
use caddy_reverse_proxy.Common.Exec.{change}
use caddy_reverse_proxy.Common.Exec.Keeps.{Keeps, Keeps-change, keeps_rules}
use caddy_reverse_proxy.Model.{Listener, BackendPool, RoutingRule, RouteConfig}
use caddy_reverse_proxy.Routes.Errors.{Error}
use caddy_reverse_proxy.Routes.Std.{Std}
use caddy_reverse_proxy.Routes.Listeners.{find_matching_listener}
use caddy_reverse_proxy.Routes.Store.{Store}
use caddy_reverse_proxy.Routes.Commit.{rebuild_store}
use caddy_reverse_proxy.Routes.Operations.{add_listener_change, add_pool_change, add_rule_change}
use caddy_reverse_proxy.Routes.Compat.{
  ensure_listener, found_or_added, keep_routes, rebuild_routes_locked, migrate_route_locked,
}

module _ (std : Std) where
  -- A property of stores that the three additions and a rebuild keep.
  pub record IsStable (P : Store → Type 0) : Type 0 where
    pub listener :
        (now : ℕ → ℕ) (l : Listener) (s : Store) (c : Listener) (s' : Store)
        → add_listener_change now l s ≡ ok (c, s')
        → P s
        → P s'
    pub pool :
        (now : ℕ → ℕ) (p : BackendPool) (s : Store) (c : BackendPool) (s' : Store)
        → add_pool_change std now p s ≡ ok (c, s')
        → P s
        → P s'
    pub rule :
        (now : ℕ → ℕ) (r : RoutingRule) (s : Store) (c : RoutingRule) (s' : Store)
        → add_rule_change std now r s ≡ ok (c, s')
        → P s
        → P s'
    pub routes : (s : Store) (routes : List RouteConfig) → P s → P (record s { routes = routes })

  module _ (P : Store → Type 0) (stable : IsStable P) where
    found_or_added-Keeps :
        (now : ℕ → ℕ) (l : Listener) (o : Option Listener) → Keeps P (found_or_added now l o)
    unfolding found_or_added
    found_or_added-Keeps now l none =
        Keeps-change (add_listener_change now l) λ s c s' e h. stable.listener now l s c s' e h
    found_or_added-Keeps now l (some old) = record { at = λ s h. h }

    ensure_listener-Keeps : (now : ℕ → ℕ) (l : Listener) → Keeps P (ensure_listener now l)
    unfolding ensure_listener
    ensure_listener-Keeps now l = record {
      at = λ s h. (found_or_added-Keeps now l (find_matching_listener s.listeners l)).at s h;
    }

    keep_routes-Keeps : (r : Result Error (List RouteConfig)) → Keeps P (keep_routes r)
    unfolding keep_routes
    keep_routes-Keeps (ok routes) = record { at = λ s h. stable.routes s routes h }
    keep_routes-Keeps (err e) = record { at = λ s h. h }

    pub rebuild_routes_locked-Keeps : Keeps P (rebuild_routes_locked std)
    unfolding rebuild_routes_locked
    rebuild_routes_locked-Keeps = record {
      at = λ s h. (keep_routes-Keeps (rebuild_store std s)).at s h;
    }

    add_pool-Keeps : (now : ℕ → ℕ) (p : BackendPool) → Keeps P (change (add_pool_change std now p))
    add_pool-Keeps now p = Keeps-change _ λ s c s' e h. stable.pool now p s c s' e h

    add_rule-Keeps : (now : ℕ → ℕ) (r : RoutingRule) → Keeps P (change (add_rule_change std now r))
    add_rule-Keeps now r = Keeps-change _ λ s c s' e h. stable.rule now r s c s' e h

    pub migrate_route_locked-Keeps :
        (now : ℕ → ℕ) (raw : RouteConfig) → Keeps P (migrate_route_locked std now raw)
    unfolding migrate_route_locked
    migrate_route_locked-Keeps now raw =
        search
          (
            keeps_rules, ensure_listener-Keeps, rebuild_routes_locked-Keeps, add_pool-Keeps,
            add_rule-Keeps,
          )
          depth 12
