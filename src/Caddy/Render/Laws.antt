-- ===== src/Caddy/Render/Laws.antt =====
-- What a generated configuration guarantees: its servers do not collide, and no route is lost.
use caddy_reverse_proxy.Common.{◌≢◌, not, ◌||◌, List, [], ◌∷◌, err, fail_if, is_empty}
use caddy_reverse_proxy.Text.{Text, codes, ◌==◌}
use caddy_reverse_proxy.Model.{RouteConfig}
use caddy_reverse_proxy.Model.Config.{AppConfig}
use caddy_reverse_proxy.Routes.Std.{Std}
use caddy_reverse_proxy.Caddy.{
  Server, panicked, no_default_listener, management_host_needs_token, no_listener,
}
use caddy_reverse_proxy.Caddy.Policies.{auth_tokens}
use caddy_reverse_proxy.Caddy.Servers.{ensure_server}
use caddy_reverse_proxy.Caddy.Entries.{render_route}
use caddy_reverse_proxy.Caddy.Render.{
  Progress, route_address, route_protocol, route_redirects, with_management, ensure_default,
  place_route, place_routes, append_redirects, render,
}
use caddy_reverse_proxy.Caddy.Render.Order.{sort_routes}
use caddy_reverse_proxy.Caddy.Render.Panics.{
  NeverPanics, >>=-NeverPanics, ok-NeverPanics, if-NeverPanics, fail_if-NeverPanics,
  render_route-NeverPanics, ensure_server-NeverPanics, route_redirects-NeverPanics,
}
use caddy_reverse_proxy.Caddy.Render.Placing.{
  turn, place_routes-IsPlaced, first_progress-IsPlaced, append_redirects-ok,
}

module _ (std : Std) (cfg : AppConfig) where
  place_route-NeverPanics :
      (route : RouteConfig) (p : Progress) → NeverPanics (place_route std cfg route p)
  unfolding place_route
  place_route-NeverPanics route p =
      let address = route_address cfg.gateway route in
      let missing = no_default_listener route.id (route_protocol route) in
      >>=-NeverPanics (fail_if (address == []) missing) _
        (fail_if-NeverPanics (address == []) missing λ e. cc)
        λ _ _.
          >>=-NeverPanics (ensure_server address (route_protocol route) p.servers) _
            (ensure_server-NeverPanics address (route_protocol route) p.servers)
            λ servers _.
              >>=-NeverPanics
                (render_route std route cfg.auth cfg.security cfg.gateway.internal_source_ranges) _
                (render_route-NeverPanics std route cfg.auth cfg.security
                  cfg.gateway.internal_source_ranges)
                λ entries _.
                  >>=-NeverPanics (route_redirects cfg.gateway route address) _
                    (route_redirects-NeverPanics cfg.gateway route address)
                    λ redirects _. ok-NeverPanics _

  place_routes-NeverPanics :
      (routes : List RouteConfig) (p : Progress) → NeverPanics (place_routes std cfg routes p)
  unfolding place_routes turn
  place_routes-NeverPanics [] p = ok-NeverPanics p
  place_routes-NeverPanics (route ∷ routes) p =
      >>=-NeverPanics (turn std cfg route p) _
        (if-NeverPanics route.enabled (place_route-NeverPanics route p) (ok-NeverPanics p))
        λ next _. place_routes-NeverPanics routes next

  ensure_default-NeverPanics :
      (address protocol : Text) (servers : List Server)
      → NeverPanics (ensure_default address protocol servers)
  unfolding ensure_default
  ensure_default-NeverPanics address protocol servers =
      if-NeverPanics (address == []) (ok-NeverPanics servers)
        (ensure_server-NeverPanics address protocol servers)

  with_management-NeverPanics : (input : List RouteConfig) → NeverPanics (with_management cfg input)
  unfolding with_management
  with_management-NeverPanics input =
      let refused = not cfg.auth.required || is_empty (auth_tokens cfg.auth) in
      if-NeverPanics (cfg.control.management_host == []) (ok-NeverPanics input) (
        >>=-NeverPanics (fail_if refused management_host_needs_token) _
          (fail_if-NeverPanics refused management_host_needs_token λ e. cc) λ _ _. ok-NeverPanics _)

-- Render never panics: the server that it asserts for the redirects is there whenever there are
-- redirects.
pub render-ne-panicked :
    (std : Std) (cfg : AppConfig) (input : List RouteConfig) → render std cfg input ≢ err panicked
unfolding render
render-ne-panicked std cfg input =
    (>>=-NeverPanics (with_management cfg input) _ (with_management-NeverPanics std cfg input)
      λ routes _.
        >>=-NeverPanics (ensure_default cfg.gateway.http_listen (codes "http") []) _
          (ensure_default-NeverPanics std cfg cfg.gateway.http_listen (codes "http") [])
          λ first h.
            >>=-NeverPanics (ensure_default cfg.gateway.https_listen (codes "https") first) _
              (ensure_default-NeverPanics std cfg cfg.gateway.https_listen (codes "https") first)
              λ servers k.
                >>=-NeverPanics
                  (place_routes std cfg (sort_routes routes)
                    (record { servers = servers; redirects = [] }))
                  _ (place_routes-NeverPanics std cfg (sort_routes routes) _)
                  λ progress placed.
                    >>=-NeverPanics (append_redirects cfg.gateway.http_listen progress) _
                      (record {
                        at = λ e.
                            let fine = append_redirects-ok cfg.gateway.http_listen progress (
                              place_routes-IsPlaced std cfg (sort_routes routes) _ placed
                                (first_progress-IsPlaced cfg.gateway h k)) in
                            cc;
                      })
                      λ all _.
                        >>=-NeverPanics (fail_if (is_empty all) no_listener) _
                          (fail_if-NeverPanics (is_empty all) no_listener λ e. cc)
                          λ _ _. ok-NeverPanics _).at
