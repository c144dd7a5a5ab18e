-- ===== src/Caddy/Render/Panics.antt =====
-- No step of Render but the last fails with a panic.
use caddy_reverse_proxy.Common.{
  ◌≡◌, ◌≢◌, refl, Bool, true, false, not, ◌&&◌, ◌||◌, List, [], ◌∷◌, Option, none, some, Result, ok,
  err, ◌>>=◌, fail_if, if◌then◌else◌, find, is_empty,
}
use caddy_reverse_proxy.Common.Int.{lt_ℤ}
use caddy_reverse_proxy.Text.{Text, codes, ◌==◌, to_lower}
use caddy_reverse_proxy.Text.HostPort.{split_host_port}
use caddy_reverse_proxy.Model.{UpstreamTarget, RouteConfig}
use caddy_reverse_proxy.Model.Config.{AuthConfig, SecurityConfig, GatewayConfig}
use caddy_reverse_proxy.Routes.Std.{Url, Std}
use caddy_reverse_proxy.Caddy.{Server, Error, panicked, mixed_schemes, internal_without_ranges}
use caddy_reverse_proxy.Caddy.Entries.{
  body_limit, differs, render_security_entries, dial_url, upstream_dial, render_upstreams,
  guarded_match, render_route,
}
use caddy_reverse_proxy.Caddy.Servers.{conflicts, or_conflict, ensure_server}
use caddy_reverse_proxy.Caddy.Render.{redirect_at, route_redirects, route_protocol}

pub record NeverPanics {A : Type 0} (r : Result Error A) : Type 0 where
  pub at : r ≢ err panicked

module _ {A B : Type 0} where
  pub >>=-NeverPanics :
      (m : Result Error A) (f : A → Result Error B)
      → NeverPanics m
      → ((a : A) → m ≡ ok a → NeverPanics (f a))
      → NeverPanics (m >>= f)
  >>=-NeverPanics (ok a) f h k = k a refl
  >>=-NeverPanics (err e) f h k = record { at = λ p. h.at (cc) }

module _ {A : Type 0} where
  pub ok-NeverPanics : (a : A) → NeverPanics {A = A} (ok a)
  ok-NeverPanics a = record { at = λ p. cc }

  err-NeverPanics : (e : Error) → e ≢ panicked → NeverPanics {A = A} (err e)
  err-NeverPanics e h = record { at = λ p. h (cc) }

  pub if-NeverPanics :
      (b : Bool) {x y : Result Error A}
      → NeverPanics x
      → NeverPanics y
      → NeverPanics (if b then x else y)
  if-NeverPanics true h k = h
  if-NeverPanics false h k = k

pub fail_if-NeverPanics : (b : Bool) (e : Error) → e ≢ panicked → NeverPanics (fail_if b e)
fail_if-NeverPanics true e h = record { at = λ p. h (cc) }
fail_if-NeverPanics false e h = record { at = λ p. cc }

dial_url-NeverPanics :
    (route : RouteConfig) (raw : Text) (url : Option Url) → NeverPanics (dial_url route raw url)
dial_url-NeverPanics route raw none = err-NeverPanics _ λ e. cc
dial_url-NeverPanics route raw (some url) =
    if-NeverPanics (url.host == []) (err-NeverPanics _ λ e. cc) (
      if-NeverPanics (to_lower url.scheme == codes "http") (ok-NeverPanics _) (
        if-NeverPanics (to_lower url.scheme == codes "https") (ok-NeverPanics _)
          (err-NeverPanics _ λ e. cc)))

module _ (std : Std) where
  render_upstreams-NeverPanics :
      (route : RouteConfig) (transport : Option Bool) (upstreams : List UpstreamTarget)
      → NeverPanics (render_upstreams std route transport upstreams)
  unfolding render_upstreams upstream_dial
  render_upstreams-NeverPanics route transport [] = ok-NeverPanics _
  render_upstreams-NeverPanics route transport (u ∷ upstreams) =
      >>=-NeverPanics (upstream_dial std route u.url) _ (dial_url-NeverPanics route u.url _)
        λ dialled _.
          >>=-NeverPanics (fail_if (differs transport dialled.1) (mixed_schemes route.id)) _
            (fail_if-NeverPanics _ (mixed_schemes route.id) λ e. cc)
            λ _ _.
              >>=-NeverPanics (render_upstreams std route (some dialled.1) upstreams) _
                (render_upstreams-NeverPanics route (some dialled.1) upstreams)
                λ rest _. ok-NeverPanics _

guarded_match-NeverPanics :
    (route : RouteConfig) (ranges : List Text) → NeverPanics (guarded_match route ranges)
unfolding guarded_match
guarded_match-NeverPanics route ranges =
    if-NeverPanics (route.exposure == codes "internal")
      (>>=-NeverPanics (fail_if (is_empty ranges) (internal_without_ranges route.id)) _
        (fail_if-NeverPanics (is_empty ranges) (internal_without_ranges route.id) λ e. cc)
        λ _ _. ok-NeverPanics _)
      (ok-NeverPanics _)

render_security_entries-NeverPanics :
    (route : RouteConfig) (security : SecurityConfig)
    → NeverPanics (render_security_entries route security)
unfolding render_security_entries
render_security_entries-NeverPanics route security =
    if-NeverPanics (not security.enabled || route.security.disabled) (ok-NeverPanics _) (
      if-NeverPanics (lt_ℤ (body_limit route security) 0) (err-NeverPanics _ λ e. cc)
        (ok-NeverPanics _))

pub render_route-NeverPanics :
    (std : Std) (route : RouteConfig) (auth : AuthConfig) (security : SecurityConfig)
    (ranges : List Text)
    → NeverPanics (render_route std route auth security ranges)
unfolding render_route
render_route-NeverPanics std route auth security ranges =
    >>=-NeverPanics (guarded_match route ranges) _ (guarded_match-NeverPanics route ranges) λ m _.
      >>=-NeverPanics (render_upstreams std route none route.upstreams) _
        (render_upstreams-NeverPanics std route none route.upstreams)
        λ upstreams _.
          >>=-NeverPanics (render_security_entries route security) _
            (render_security_entries-NeverPanics route security) λ checked _. ok-NeverPanics _

or_conflict-NeverPanics :
    (address : Text) (o : Option Server) (servers : List Server)
    → NeverPanics (or_conflict address o servers)
or_conflict-NeverPanics address none servers = ok-NeverPanics _
or_conflict-NeverPanics address (some s) servers = err-NeverPanics _ λ e. cc

pub ensure_server-NeverPanics :
    (address protocol : Text) (servers : List Server)
    → NeverPanics (ensure_server address protocol servers)
unfolding ensure_server
ensure_server-NeverPanics address protocol servers =
    or_conflict-NeverPanics address (find (conflicts address protocol) servers) _

redirect_at-NeverPanics :
    (route : RouteConfig) (address : Text) (o : Option (Text × Text))
    → NeverPanics (redirect_at route address o)
redirect_at-NeverPanics route address none = err-NeverPanics _ λ e. cc
redirect_at-NeverPanics route address (some (host, port)) = ok-NeverPanics _

pub route_redirects-NeverPanics :
    (cfg : GatewayConfig) (route : RouteConfig) (address : Text)
    → NeverPanics (route_redirects cfg route address)
unfolding route_redirects
route_redirects-NeverPanics cfg route address =
    if-NeverPanics (route_protocol route == codes "https" && not (cfg.http_listen == []))
      (redirect_at-NeverPanics route address (split_host_port address)) (ok-NeverPanics _)
