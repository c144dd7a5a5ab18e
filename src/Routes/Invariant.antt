-- ===== src/Routes/Invariant.antt =====
-- What the store keeps true of its resources and routes, stated by propositions.
pub mod Paths
pub mod Listeners
pub mod Pools
pub mod Rules
pub mod Lookups
pub mod Changes
pub mod Replacements
pub mod Deletions
pub mod Commit
pub mod Compiled
pub mod Compat
pub mod Prune
pub mod Load
pub mod Runtime
use caddy_reverse_proxy.Common.{
  ◌≡◌, ◌≢◌, ◌⊎◌, true, false, List, [], Result, ok, All, Distinct, is_some,
}
use caddy_reverse_proxy.Common.Int.{InRange}
use caddy_reverse_proxy.Text.{Text, codes, to_lower, has_prefix, contains}
use caddy_reverse_proxy.Model.{Listener, BackendTarget, BackendPool, RoutingRule}
use caddy_reverse_proxy.Routes.Std.{Std}
use caddy_reverse_proxy.Routes.Validate.{validate_route_host}
use caddy_reverse_proxy.Routes.Validate.Security.{validate_route_security}
use caddy_reverse_proxy.Routes.Listeners.{find_listener}
use caddy_reverse_proxy.Routes.Pools.{valid_backend_address, target_key, find_backend_pool}
use caddy_reverse_proxy.Routes.Store.{Store}
use caddy_reverse_proxy.Routes.Commit.{rebuild_store}

abbrev pub IsHttp : Text → Type 0
IsHttp protocol = (protocol ≡ codes "http") ⊎ (protocol ≡ codes "https")

pub record IsListener (l : Listener) : Type 0 where
  pub id : l.id ≢ []
  pub name : l.name ≢ []
  pub hostname : validate_route_host l.hostname ≡ ok tt
  pub protocol : IsHttp l.protocol
  pub port : InRange 1 l.port 65535

abbrev pub SameEndpoint : Listener → Listener → Type 0
SameEndpoint a b = (a.hostname ≡ b.hostname) × (a.port ≡ b.port) × (a.protocol ≡ b.protocol)

abbrev pub ListenersApart : Listener → Listener → Type 0
ListenersApart a b = (a.id ≢ b.id) × ¬ SameEndpoint a b

abbrev pub PoolsApart : BackendPool → BackendPool → Type 0
PoolsApart a b = (a.id ≢ b.id) × (to_lower a.name ≢ to_lower b.name)

abbrev pub RulesApart : RoutingRule → RoutingRule → Type 0
RulesApart a b =
    (a.id ≢ b.id) × ¬ ((a.listener_id ≡ b.listener_id) × (a.path_prefix ≡ b.path_prefix))

abbrev pub KeysApart : BackendTarget → BackendTarget → Type 0
KeysApart a b = target_key a ≢ target_key b

module _ (std : Std) where
  abbrev pub IsTarget : BackendTarget → Type 0
  IsTarget target = (valid_backend_address std target.address ≡ true) × InRange 0 target.port 65535

  pub record IsPool (p : BackendPool) : Type 0 where
    pub id : p.id ≢ []
    pub name : p.name ≢ []
    pub some_target : p.targets ≢ []
    pub targets : All IsTarget p.targets
    pub keys : Distinct KeysApart p.targets

  pub record IsRule (listeners : List Listener) (pools : List BackendPool) (r : RoutingRule)
      : Type 0 where
    pub id : r.id ≢ []
    pub name : r.name ≢ []
    -- Referential integrity.
    pub listener : is_some (find_listener listeners r.listener_id) ≡ true
    pub pool : is_some (find_backend_pool pools r.backend_pool_id) ≡ true
    pub port : InRange 1 r.backend_port 65535
    pub protocol : IsHttp r.backend_protocol
    pub path :
        (r.path_prefix ≡ [])
        ⊎ ((has_prefix r.path_prefix (codes "/") ≡ true) × (contains b'*' r.path_prefix ≡ false))
    pub security : validate_route_security std r.security ≡ ok tt

  -- The resources, apart from the routes that they compile to.
  pub record AreValid (ls : List Listener) (ps : List BackendPool) (rs : List RoutingRule)
      : Type 0 where
    pub listeners : All IsListener ls
    pub listeners_apart : Distinct ListenersApart ls
    pub pools : All IsPool ps
    pub pools_apart : Distinct PoolsApart ps
    pub rules : All (IsRule ls ps) rs
    pub rules_apart : Distinct RulesApart rs

  pub record IsWellFormed (s : Store) : Type 0 where
    pub resources : AreValid s.listeners s.backend_pools s.routing_rules
    -- The routes are what the resources compile to.
    pub compiled : rebuild_store std s ≡ ok s.routes
