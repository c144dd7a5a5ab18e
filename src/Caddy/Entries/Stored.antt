-- ===== src/Caddy/Entries/Stored.antt =====
-- The routes that the store compiles, as the renderer takes them.
use caddy_reverse_proxy.Common.{
  ◌≡◌, subst, Option, none, some, List, [], ◌∷◌, map, ok, ok-injective, >>=-eq-ok, >>-eq-ok,
  wrap_err, wrap_err-eq-ok, All, is_empty, false,
}
use caddy_reverse_proxy.Common.Int.{lt_ℤ}
use caddy_reverse_proxy.Common.Lists.Laws.{All-mono}
use caddy_reverse_proxy.Text.{Text}
use caddy_reverse_proxy.Text.Trim.{trim_space-twice}
use caddy_reverse_proxy.Model.{UpstreamTarget, Listener, BackendPool, RoutingRule, RouteConfig}
use caddy_reverse_proxy.Model.Config.{AuthConfig, SecurityConfig}
use caddy_reverse_proxy.Routes.Std.{Std}
use caddy_reverse_proxy.Routes.Validate.{validate}
use caddy_reverse_proxy.Routes.Normalize.{trim_url, normalize}
use caddy_reverse_proxy.Routes.Listeners.{find_listener}
use caddy_reverse_proxy.Routes.Pools.{find_backend_pool}
use caddy_reverse_proxy.Routes.Compile.{route_of_rule, compile_with, compile_rule, rebuild_routes}
use caddy_reverse_proxy.Routes.Store.{Store}
use caddy_reverse_proxy.Routes.Invariant.{IsWellFormed}
use caddy_reverse_proxy.Caddy.Entries.{render_route}
use caddy_reverse_proxy.Caddy.Entries.Valid.{IsTrimmed, RendersOrMixes, render_route-valid}

All-trim_url : (upstreams : List UpstreamTarget) → All IsTrimmed (map trim_url upstreams)
All-trim_url [] = tt
All-trim_url (upstream ∷ upstreams) = (trim_space-twice upstream.url, All-trim_url upstreams)

normalize-IsTrimmed : (route : RouteConfig) → All IsTrimmed (normalize route).upstreams
unfolding normalize
normalize-IsTrimmed route = All-trim_url route.upstreams

module _ (std : Std) where
  abbrev IsAccepted : RouteConfig → Type 0
  IsAccepted route = (validate std route ≡ ok tt) × All IsTrimmed route.upstreams

  compile_with-IsAccepted :
      (l : Option Listener) (p : Option BackendPool) (r : RoutingRule) {route : RouteConfig}
      → compile_with std l p r ≡ ok route
      → IsAccepted route
  compile_with-IsAccepted none p r h = cc
  compile_with-IsAccepted (some l) none r h = cc
  compile_with-IsAccepted (some l) (some p) r h =
      let found = route_of_rule l p r in
      let (checked, same) = >>-eq-ok (wrap_err _ (validate std (normalize found))) _ h in
      subst IsAccepted (ok-injective same)
        (wrap_err-eq-ok _ (validate std (normalize found)) checked, normalize-IsTrimmed found)

  rebuild_routes-IsAccepted :
      (ls : List Listener) (ps : List BackendPool) (rs : List RoutingRule)
      {routes : List RouteConfig}
      → rebuild_routes std ls ps rs ≡ ok routes
      → All IsAccepted routes
  unfolding rebuild_routes compile_rule
  rebuild_routes-IsAccepted ls ps [] h = subst (All IsAccepted) (ok-injective h) tt
  rebuild_routes-IsAccepted ls ps (r ∷ rs) h =
      let (route, compiled, more) = >>=-eq-ok (compile_rule std ls ps r) _ h in
      let (routes, rest, same) = >>=-eq-ok (rebuild_routes std ls ps rs) _ more in
      subst (All IsAccepted) (ok-injective same) (
        compile_with-IsAccepted (find_listener ls r.listener_id)
            (find_backend_pool ps r.backend_pool_id) r compiled,
        rebuild_routes-IsAccepted ls ps rs rest,
      )

  -- Whatever the store compiles can be rendered: in a well-formed store each route renders, or fails
  -- for the one reason that its upstreams mix http and https. The gateway is to have source ranges
  -- for internal routes and no negative limit for request bodies, as its own configuration is
  -- checked to have.
  pub store_routes-RendersOrMixes :
      (s : Store) (auth : AuthConfig) (security : SecurityConfig) (ranges : List Text)
      → IsWellFormed std s
      → is_empty ranges ≡ false
      → lt_ℤ security.max_request_body_bytes 0 ≡ false
      → All (λ route. RendersOrMixes route (render_route std route auth security ranges)) s.routes
  store_routes-RendersOrMixes s auth security ranges h nonempty limit =
      All-mono _ _
        (λ route (valid, trimmed).
          render_route-valid std route auth security ranges valid trimmed nonempty limit)
        s.routes (rebuild_routes-IsAccepted s.listeners s.backend_pools s.routing_rules h.compiled)
