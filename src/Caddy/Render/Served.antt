-- ===== src/Caddy/Render/Served.antt =====
-- Which entries the server at an address has, and in which order.
use mathlib.Core.List.{append_assoc, append-nil}
use caddy_reverse_proxy.Common.{
  ◌≡◌, refl, sym, ap, subst, ◌∙◌, inl, inr, Bool, true, false, ◌&&◌, List, [], ◌∷◌, ◌++◌, ok,
  >>=-eq-ok, if◌then◌else◌, arith, Bool-cases, any, is_empty, ok-injective,
}
use caddy_reverse_proxy.Text.{Text, codes, ◌==◌}
use caddy_reverse_proxy.Text.Laws.{==_iff}
use caddy_reverse_proxy.Model.{RouteConfig}
use caddy_reverse_proxy.Model.Config.{AppConfig, CertificateConfig}
use caddy_reverse_proxy.Routes.Std.{Std}
use caddy_reverse_proxy.Caddy.{Entry, Server}
use caddy_reverse_proxy.Caddy.Servers.{at_address, update_server, wildcard_certificate_covers_host}
use caddy_reverse_proxy.Caddy.Render.{
  CaddyConfig, Progress, route_address, route_protocol, skip_covered, skip_certificate,
  append_entries, with_management, ensure_default, place_route, place_routes, render,
}
use caddy_reverse_proxy.Caddy.Render.Order.{sort_routes}
use caddy_reverse_proxy.Caddy.Render.Listeners.{
  Listens, skip_covered-listeners, Listens-any, ensure_server-IsEnsured,
}
use caddy_reverse_proxy.Caddy.Render.Placing.{
  if_true, if_false, IsPlaced, place_route-ok, turn, place_routes-IsPlaced, first_progress-IsPlaced,
}
use caddy_reverse_proxy.Caddy.Render.Rendered.{render-IsRendered}
use caddy_reverse_proxy.Caddy.Render.Addresses.{
  routes_at, routes_at-update_same, routes_at-append_other, routes_at-append_here,
  routes_at-ensure_server,
}
use caddy_reverse_proxy.Caddy.Render.Expected.{
  entries_of-ok, if_true_eq, if_false_eq, own_entries, expected_entries, own_redirects,
  expected_redirects, own_entries-here,
}

routes_at-skip_covered :
    (certificate : CertificateConfig) (route : RouteConfig) (address a : Text)
    (servers : List Server)
    → routes_at a (skip_covered certificate route address servers) ≡ routes_at a servers
unfolding skip_covered skip_certificate
routes_at-skip_covered certificate route address a servers =
    elim (Bool-cases (
      route_protocol route == codes "https"
      && wildcard_certificate_covers_host certificate.subjects route.host)) [
        | inl e ↦ rw e (routes_at-update_same _ address a servers λ s. (refl, refl))
        | inr e ↦ rw e refl
      ]

no_redirects :
    (b : Bool) (redirects : List Entry)
    → is_empty redirects ≡ true
    → (if b then redirects else []) ≡ []
no_redirects true [] h = refl
no_redirects true (e ∷ redirects) h = cc
no_redirects false redirects h = refl

module _ (std : Std) (cfg : AppConfig) where
  -- `next` has taken the entries and the redirects of some routes behind those of `p`.
  record IsExtended (a : Text) (entries redirects : List Entry) (p next : Progress) : Type 0 where
    served : routes_at a next.servers ≡ routes_at a p.servers ++ entries
    redirected : next.redirects ≡ p.redirects ++ redirects

  place_route-IsExtended :
      (a : Text) (route : RouteConfig) (p : Progress) {next : Progress}
      → route.enabled ≡ true
      → place_route std cfg route p ≡ ok next
      → IsExtended a (own_entries std cfg a route) (own_redirects std cfg route) p next
  place_route-IsExtended a route p on h =
      let (servers, entries, redirects, ensured, rendered, redirected, same) =
        place_route-ok std cfg route p h in
      let address = route_address cfg.gateway route in
      let skipped = skip_covered cfg.gateway.certificate route address servers in
      let facts = ensure_server-IsEnsured address (route_protocol route) p.servers ensured in
      let there = Listens-any address skipped (
        subst (Listens address)
          (sym (skip_covered-listeners cfg.gateway.certificate route address servers))
          facts.listens) in
      let before =
        routes_at-skip_covered cfg.gateway.certificate route address a servers
        ∙ routes_at-ensure_server address (route_protocol route) a p.servers ensured in
      subst (IsExtended a (own_entries std cfg a route) (own_redirects std cfg route) p) same
        (record {
          served = elim (Bool-cases (address == a)) [
            | inl e ↦
                let at_a = (==_iff address a).0 e in
                subst
                  (λ (t : Text).
                    routes_at a (update_server (append_entries entries) t skipped)
                    ≡ routes_at a p.servers ++ own_entries std cfg a route)
                  (sym at_a)
                  (routes_at-append_here entries a skipped
                      (subst (λ (t : Text). any (at_address t) skipped ≡ true) at_a there)
                    ∙ ap (λ (es : List Entry). es ++ entries) before
                    ∙ ap (λ (es : List Entry). routes_at a p.servers ++ es)
                        (sym (own_entries-here std cfg a route on e rendered)))
            | inr e ↦
                routes_at-append_other entries address a skipped e
                ∙ before
                ∙ sym (
                    ap (λ (es : List Entry). routes_at a p.servers ++ es)
                      (if_false_eq _ (route.enabled && address == a) (ground arith))
                    ∙ append-nil (routes_at a p.servers))
          ];
          redirected =
              ap (λ (es : List Entry). p.redirects ++ es)
                (sym (if_true_eq _ route.enabled on ∙ entries_of-ok _ redirected));
        })

  turn-IsExtended :
      (a : Text) (route : RouteConfig) (p : Progress) {next : Progress}
      → turn std cfg route p ≡ ok next
      → IsExtended a (own_entries std cfg a route) (own_redirects std cfg route) p next
  unfolding turn
  turn-IsExtended a route p h = elim (Bool-cases route.enabled) [
    | inl on ↦ place_route-IsExtended a route p on (if_true _ on h)
    | inr off ↦
        let skipped = ok-injective (if_false _ off h) in
        subst (IsExtended a (own_entries std cfg a route) (own_redirects std cfg route) p) skipped
          (record {
            served = sym (
                ap (λ (es : List Entry). routes_at a p.servers ++ es)
                  (if_false_eq _ (route.enabled && route_address cfg.gateway route == a)
                    (ground arith))
                ∙ append-nil (routes_at a p.servers));
            redirected = sym (
                ap (λ (es : List Entry). p.redirects ++ es) (if_false_eq _ route.enabled off)
                ∙ append-nil p.redirects);
          })
  ]

  place_routes-IsExtended :
      (a : Text) (routes : List RouteConfig) (p : Progress) {next : Progress}
      → place_routes std cfg routes p ≡ ok next
      → IsExtended a (expected_entries std cfg a routes) (expected_redirects std cfg routes) p next
  unfolding place_routes turn
  place_routes-IsExtended a [] p h = subst (IsExtended a [] [] p) (ok-injective h) (record {
    served = sym (append-nil (routes_at a p.servers));
    redirected = sym (append-nil p.redirects);
  })
  place_routes-IsExtended a (route ∷ routes) p h =
      let (mid, turned, rest) = >>=-eq-ok (turn std cfg route p) _ h in
      let one = turn-IsExtended a route p turned in
      let more = place_routes-IsExtended a routes mid rest in
      record {
        served =
            more.served
            ∙ ap (λ (es : List Entry). es ++ expected_entries std cfg a routes) one.served
            ∙ append_assoc (routes_at a p.servers) (own_entries std cfg a route)
                (expected_entries std cfg a routes);
        redirected =
            more.redirected
            ∙ ap (λ (es : List Entry). es ++ expected_redirects std cfg routes) one.redirected
            ∙ append_assoc p.redirects (own_redirects std cfg route)
                (expected_redirects std cfg routes);
      }

  routes_at-ensure_default :
      (address protocol a : Text) (servers : List Server) {added : List Server}
      → ensure_default address protocol servers ≡ ok added
      → routes_at a added ≡ routes_at a servers
  unfolding ensure_default
  routes_at-ensure_default address protocol a servers h = elim (Bool-cases (address == [])) [
    | inl e ↦ ap (λ (all : List Server). routes_at a all) (sym (ok-injective (if_true _ e h)))
    | inr e ↦ routes_at-ensure_server address protocol a servers (if_false _ e h)
  ]

  -- The redirects, at the default http listener.
  routes_at-redirects :
      (a : Text) (p : Progress)
      → IsPlaced cfg.gateway.http_listen p
      → routes_at a (
          if is_empty p.redirects
          then p.servers
          else update_server (append_entries p.redirects) cfg.gateway.http_listen p.servers)
        ≡ routes_at a p.servers ++ (if cfg.gateway.http_listen == a then p.redirects else [])
  routes_at-redirects a p placed = elim (Bool-cases (is_empty p.redirects)) [
    | inl e ↦ rw e (
        sym (
          ap (λ (es : List Entry). routes_at a p.servers ++ es)
            (no_redirects (cfg.gateway.http_listen == a) p.redirects e)
          ∙ append-nil (routes_at a p.servers)))
    | inr e ↦ rw e (elim (Bool-cases (cfg.gateway.http_listen == a)) [
      | inl here ↦
          let same = (==_iff cfg.gateway.http_listen a).0 here in
          let there =
            Listens-any cfg.gateway.http_listen p.servers (placed.default (placed.needed e)) in
          rw here (
            subst
              (λ (t : Text).
                routes_at a (update_server (append_entries p.redirects) t p.servers)
                ≡ routes_at a p.servers ++ p.redirects)
              (sym same)
              (routes_at-append_here p.redirects a p.servers
                (subst (λ (t : Text). any (at_address t) p.servers ≡ true) same there)))
      | inr other ↦ rw other (
          routes_at-append_other p.redirects cfg.gateway.http_listen a p.servers other
          ∙ sym (append-nil (routes_at a p.servers)))
    ])
  ]

-- No route is lost, and none is added. When Render succeeds on the routes that it makes of its input
-- and the management host, the server at any address has the entries of exactly the enabled routes
-- that belong to the address, route after route in the order of the sort; the server at the default
-- http listener has the redirects of all enabled https routes behind them.
pub render-routes_at :
    (std : Std) (cfg : AppConfig) (input routes : List RouteConfig) (config : CaddyConfig)
    (a : Text)
    → with_management cfg input ≡ ok routes
    → render std cfg input ≡ ok config
    → routes_at a config.servers
      ≡ expected_entries std cfg a (sort_routes routes)
        ++ (if cfg.gateway.http_listen == a
            then expected_redirects std cfg (sort_routes routes)
            else [])
render-routes_at std cfg input routes config a managed h =
    let r = render-IsRendered std cfg input routes managed h in
    let placed =
      place_routes-IsPlaced std cfg (sort_routes routes) _ r.placed
        (first_progress-IsPlaced cfg.gateway r.http r.https) in
    let all = place_routes-IsExtended std cfg a (sort_routes routes) _ r.placed in
    let empty =
      routes_at-ensure_default std cfg cfg.gateway.https_listen (codes "https") a r.first r.https
      ∙ routes_at-ensure_default std cfg cfg.gateway.http_listen (codes "http") a [] r.http in
    let own =
      all.served
      ∙ ap (λ (es : List Entry). es ++ expected_entries std cfg a (sort_routes routes)) empty in
    ap (λ (servers : List Server). routes_at a servers) r.servers
    ∙ routes_at-redirects std cfg a r.progress placed
    ∙ ap
        (λ (es : List Entry).
          es ++ (if cfg.gateway.http_listen == a then r.progress.redirects else []))
        own
    ∙ ap
        (λ (es : List Entry).
          expected_entries std cfg a (sort_routes routes)
          ++ (if cfg.gateway.http_listen == a then es else []))
        all.redirected
