-- ===== src/Routes/Invariant/Compiled.antt =====
-- What a compiled route has of its rule, its listener and its pool.
use caddy_reverse_proxy.Common.{
  ok-injective, suc, Bool-cases, inl, inr, ◌≢◌, ◌≡◌, refl, subst, ap, sym, ◌∙◌, ◌↔◌, Bool, true,
  ◌||◌, Option, none, some, List, [], ◌∷◌, map, ok, length, arith, >>=-eq-ok, >>-eq-ok,
  wrap_err-eq-ok, wrap_err,
}
use caddy_reverse_proxy.Common.Lists.Laws.{find-eq-some}
use caddy_reverse_proxy.Text.{Text, codes, ◌==◌, to_lower, trim_space}
use caddy_reverse_proxy.Text.Laws.{==_iff}
use caddy_reverse_proxy.Model.{Listener, BackendPool, RoutingRule, RouteConfig}
use caddy_reverse_proxy.Routes.Std.{Std}
use caddy_reverse_proxy.Routes.Validate.{validate}
use caddy_reverse_proxy.Routes.Normalize.{normalize, expose, default_exposure}
use caddy_reverse_proxy.Routes.Listeners.{listener_has_id, find_listener}
use caddy_reverse_proxy.Routes.Pools.{pool_has_id, find_backend_pool}
use caddy_reverse_proxy.Routes.Compile.{route_of_rule, compile_with, compile_rule, rebuild_routes}
use caddy_reverse_proxy.Routes.Store.{Store}
use caddy_reverse_proxy.Routes.Invariant.{IsWellFormed}

-- Two lists of one length, related place by place.
abbrev pub Matches : {A B : Type 0} → (A → B → Type 0) → List A → List B → Type 0
Matches R [] [] = Unit
Matches R (a ∷ xs) (b ∷ ys) = R a b × Matches R xs ys
Matches R _ _ = ⊥

abbrev pub IsProtected : RoutingRule → Type 0
IsProtected r = to_lower (trim_space r.exposure) ≡ codes "protected"

length-map : {A B : Type 0} (f : A → B) (xs : List A) → length (map f xs) ≡ length xs
length-map f [] = refl
length-map f (x ∷ xs) = ap suc (length-map f xs)

expose-protected : (e : Text) → ((expose e).is_protected ≡ true) ↔ (e ≡ codes "protected")
unfolding expose
expose-protected e = elim (Bool-cases (e == codes "internal")) [
  | inl internal ↦
      let same : e ≡ codes "internal" = (==_iff e (codes "internal")).0 internal in
      rw internal (λ h. cc, λ h. absurd (internal-ne-protected (sym same ∙ h)))
  | inr other ↦ elim (Bool-cases (e == codes "protected")) [
    | inl protected ↦
        rw (other, protected) (λ h. (==_iff e (codes "protected")).0 protected, λ h. refl)
    | inr public ↦
        rw (other, public) (λ h. cc, λ h. absurd (ground (arith, ==_iff e (codes "protected"))))
  ]
]
  where
    internal-ne-protected : codes "internal" ≢ codes "protected"
    internal-ne-protected h = ground arith

default_exposure-protected :
    (b : Bool) (source e : Text)
    → (default_exposure b source e ≡ codes "protected") ↔ (e ≡ codes "protected")
unfolding ◌==◌
default_exposure-protected b source [] = elim (Bool-cases (b || source == codes "explicit")) [
  | inl public ↦ rw public (λ h. absurd (ground arith), λ h. absurd (ground arith))
  | inr hidden ↦ rw hidden (λ h. absurd (ground arith), λ h. absurd (ground arith))
]
default_exposure-protected b source (c ∷ e) = (λ h. h, λ h. h)

normalize-protected :
    (route : RouteConfig)
    → ((normalize route).is_protected ≡ true)
      ↔ (to_lower (trim_space route.exposure) ≡ codes "protected")
unfolding normalize
normalize-protected route =
    let (there, back) = default_exposure-protected _ _ _ in
    let (shown, set) = expose-protected _ in (λ h. there (shown h), λ h. set (back h))

module _ (std : Std) where
  pub record IsRouteOf (pools : List BackendPool) (r : RoutingRule) (route : RouteConfig)
      : Type 0 where
    pub id : route.id ≡ r.id
    pub enabled : route.enabled ≡ r.enabled
    pub listener : route.listener_id ≡ r.listener_id
    pub pool : route.backend_pool_id ≡ r.backend_pool_id
    pub is_protected : (route.is_protected ≡ true) ↔ IsProtected r
    pub upstreams :
        (p : BackendPool) × (find_backend_pool pools r.backend_pool_id ≡ some p)
        × (length route.upstreams ≡ length p.targets)
    pub valid : validate std route ≡ ok tt

  module _ (pools : List BackendPool) where
    compile_with-IsRouteOf :
        (l : Option Listener) (p : Option BackendPool) (r : RoutingRule) {route : RouteConfig}
        → ((x : Listener) → l ≡ some x → x.id ≡ r.listener_id)
        → ((x : BackendPool) → p ≡ some x → x.id ≡ r.backend_pool_id)
        → find_backend_pool pools r.backend_pool_id ≡ p
        → compile_with std l p r ≡ ok route
        → IsRouteOf pools r route
    unfolding normalize route_of_rule
    compile_with-IsRouteOf none p r hl hp found h = cc
    compile_with-IsRouteOf (some l) none r hl hp found h = cc
    compile_with-IsRouteOf (some l) (some p) r {route} hl hp found h =
        let (checked, same) =
          >>-eq-ok (wrap_err _ (validate std (normalize (route_of_rule l p r)))) _ h in
        let valid = wrap_err-eq-ok _ (validate std (normalize (route_of_rule l p r))) checked in
        subst (IsRouteOf pools r) (ok-injective same) (record {
          id = refl;
          enabled = refl;
          listener = hl l refl;
          pool = hp p refl;
          is_protected = normalize-protected (route_of_rule l p r);
          upstreams = (p, found, length-map _ _ ∙ length-map _ _);
          valid = valid;
        })

  compile_rule-IsRouteOf :
      (ls : List Listener) (ps : List BackendPool) (r : RoutingRule) {route : RouteConfig}
      → compile_rule std ls ps r ≡ ok route
      → IsRouteOf ps r route
  unfolding compile_rule find_listener find_backend_pool
  compile_rule-IsRouteOf ls ps r h =
      compile_with-IsRouteOf ps (find_listener ls r.listener_id)
        (find_backend_pool ps r.backend_pool_id) r
        (λ x found.
          (==_iff x.id r.listener_id).0 (find-eq-some (listener_has_id r.listener_id) ls found))
        (λ x found.
          (==_iff x.id r.backend_pool_id).0 (find-eq-some (pool_has_id r.backend_pool_id) ps found))
        refl h

  rebuild_routes-Matches :
      (ls : List Listener) (ps : List BackendPool) (rs : List RoutingRule)
      {routes : List RouteConfig}
      → rebuild_routes std ls ps rs ≡ ok routes
      → Matches (IsRouteOf ps) rs routes
  unfolding rebuild_routes
  rebuild_routes-Matches ls ps [] h = subst (Matches (IsRouteOf ps) []) (ok-injective h) tt
  rebuild_routes-Matches ls ps (r ∷ rs) h =
      let (route, compiled, more) = >>=-eq-ok (compile_rule std ls ps r) _ h in
      let (routes, rest, same) = >>=-eq-ok (rebuild_routes std ls ps rs) _ more in
      subst (Matches (IsRouteOf ps) (r ∷ rs)) (ok-injective same)
        (compile_rule-IsRouteOf ls ps r compiled, rebuild_routes-Matches ls ps rs rest)

  -- In a well-formed store the routes are one for each rule, in the order of the rules. Each has the
  -- ID, the switch, the listener and the pool of its rule and one upstream for each target of the
  -- pool, is valid, and is protected exactly when the exposure of its rule reads "protected".
  pub IsWellFormed-Matches :
      (s : Store)
      → IsWellFormed std s
      → Matches (IsRouteOf s.backend_pools) s.routing_rules s.routes
  IsWellFormed-Matches s h =
      rebuild_routes-Matches s.listeners s.backend_pools s.routing_rules h.compiled
