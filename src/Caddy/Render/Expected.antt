-- ===== src/Caddy/Render/Expected.antt =====
-- The entries and the redirects that the routes have of their own.
use caddy_reverse_proxy.Common.{
  ◌≡◌, refl, ◌∙◌, Bool, true, false, ◌&&◌, List, [], ◌∷◌, ◌++◌, Result, ok, err, if◌then◌else◌,
  arith, ok-injective,
}
use caddy_reverse_proxy.Text.{Text, ◌==◌}
use caddy_reverse_proxy.Model.{RouteConfig}
use caddy_reverse_proxy.Model.Config.{AppConfig}
use caddy_reverse_proxy.Routes.Std.{Std}
use caddy_reverse_proxy.Caddy.{Entry, Error}
use caddy_reverse_proxy.Caddy.Entries.{render_route}
use caddy_reverse_proxy.Caddy.Render.{route_address, route_redirects}

abbrev entries_of : Result Error (List Entry) → List Entry
entries_of (ok entries) = entries
entries_of (err e) = []

pub entries_of-ok :
    (r : Result Error (List Entry)) {entries : List Entry} → r ≡ ok entries → entries_of r ≡ entries
entries_of-ok (ok es) h = ok-injective h
entries_of-ok (err e) h = cc

pub if_true_eq : {A : Type 0} {x : A} (y : A) (b : Bool) → b ≡ true → (if b then x else y) ≡ x
if_true_eq y true h = refl
if_true_eq y false h = cc

pub if_false_eq : {A : Type 0} {y : A} (x : A) (b : Bool) → b ≡ false → (if b then x else y) ≡ y
if_false_eq x true h = cc
if_false_eq x false h = refl

module _ (std : Std) (cfg : AppConfig) where
  -- The entries of one route at an address.
  abbrev pub own_entries : Text → RouteConfig → List Entry
  own_entries a route =
      if route.enabled && route_address cfg.gateway route == a
      then entries_of
          (render_route std route cfg.auth cfg.security cfg.gateway.internal_source_ranges)
      else []

  -- The entries of the routes that are enabled and belong to an address, in the order of the routes.
  abbrev pub expected_entries : Text → List RouteConfig → List Entry
  expected_entries a [] = []
  expected_entries a (route ∷ routes) = own_entries a route ++ expected_entries a routes

  abbrev pub own_redirects : RouteConfig → List Entry
  own_redirects route =
      if route.enabled
      then entries_of (route_redirects cfg.gateway route (route_address cfg.gateway route))
      else []

  abbrev pub expected_redirects : List RouteConfig → List Entry
  expected_redirects [] = []
  expected_redirects (route ∷ routes) = own_redirects route ++ expected_redirects routes

  pub own_entries-here :
      (a : Text) (route : RouteConfig) {entries : List Entry}
      → route.enabled ≡ true
      → route_address cfg.gateway route == a ≡ true
      → render_route std route cfg.auth cfg.security cfg.gateway.internal_source_ranges ≡ ok entries
      → own_entries a route ≡ entries
  own_entries-here a route on here h =
      if_true_eq _ (route.enabled && route_address cfg.gateway route == a) (ground arith)
      ∙ entries_of-ok _ h
