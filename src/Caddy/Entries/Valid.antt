-- ===== src/Caddy/Entries/Valid.antt =====
-- The routes that the store has validated can be rendered.
use caddy_reverse_proxy.Common.{
  ◌≡◌, refl, subst, ◌⊎◌, inl, inr, Bool, true, false, not, ◌&&◌, ◌||◌, Option, none, some, List, [],
  ◌∷◌, Result, ok, err, ◌>>=◌, >>-eq-ok, fail_if, fail_if-eq-ok, arith, Bool-cases, All, is_empty,
}
use caddy_reverse_proxy.Common.Int.{ℤ, pos, eq_ℤ, lt_ℤ}
use caddy_reverse_proxy.Text.{
  Text, codes, ◌==◌, to_lower, trim_space, trim_suffix_dot, has_prefix, contains,
}
use caddy_reverse_proxy.Model.{UpstreamTarget, RouteConfig}
use caddy_reverse_proxy.Model.Config.{AuthConfig, SecurityConfig}
use caddy_reverse_proxy.Routes.Std.{Url, Std}
use caddy_reverse_proxy.Routes.Validate.{
  validate_route_host, validate_upstream_url, validate_upstreams, validate,
}
use caddy_reverse_proxy.Routes.Errors.{
  host_required, upstream_required, path_without_slash, path_wildcard, negative_body_limit,
}
use caddy_reverse_proxy.Caddy.Matchers.{route_match}
use caddy_reverse_proxy.Routes.Validate.Security.{validate_route_security}
use caddy_reverse_proxy.Caddy.{Matcher, Entry, Error, mixed_schemes}
use caddy_reverse_proxy.Caddy.Entries.{
  dial_url, upstream_dial, differs, render_upstreams, body_limit, security_entries,
  render_security_entries, guarded_match, render_route,
}

-- The spaces around a URL are trimmed, as `normalize` leaves it.
abbrev pub IsTrimmed : UpstreamTarget → Type 0
IsTrimmed upstream = trim_space upstream.url ≡ upstream.url

-- A result, or the error that upstreams mix http and https.
abbrev pub RendersOrMixes : {A : Type 0} → RouteConfig → Result Error A → Type 0
RendersOrMixes {A} route r = ((a : A) × (r ≡ ok a)) ⊎ (r ≡ err (mixed_schemes route.id))

bind-RendersOrMixes :
    {A B : Type 0} (route : RouteConfig) (r : Result Error A) (f : A → Result Error B)
    → RendersOrMixes route r
    → ((a : A) → RendersOrMixes route (f a))
    → RendersOrMixes route (r >>= f)
bind-RendersOrMixes route (ok a) f h k = k a
bind-RendersOrMixes route (err e) f h k = ground (arith, h)

dial_url-valid :
    (std : Std) (route : RouteConfig) (url raw : Text) (parsed : Option Url)
    → validate_upstream_url std url parsed ≡ ok tt
    → (dialled : Text × Bool) × (dial_url route raw parsed ≡ ok dialled)
dial_url-valid std route url raw none h = cc
dial_url-valid std route url raw (some parsed) h =
    let (complete, http_or_https) = >>-eq-ok _ _ h in
    let whole : (parsed.host == [] || parsed.scheme == []) ≡ false = fail_if-eq-ok _ _ complete in
    let known : not
          (to_lower parsed.scheme == codes "http" || to_lower parsed.scheme == codes "https")
        ≡ false =
      fail_if-eq-ok _ _ http_or_https in
    let host : parsed.host == [] ≡ false = ground arith in
    elim (Bool-cases (to_lower parsed.scheme == codes "http")) [
      | inl plain ↦ ((parsed.host, false), rw (host, plain) refl)
      | inr other ↦
          let tls : to_lower parsed.scheme == codes "https" ≡ true = ground arith in
          ((parsed.host, true), rw (host, other, tls) refl)
    ]

render_upstreams-valid :
    (std : Std) (route : RouteConfig) (transport : Option Bool) (upstreams : List UpstreamTarget)
    → validate_upstreams std upstreams ≡ ok tt
    → All IsTrimmed upstreams
    → RendersOrMixes route (render_upstreams std route transport upstreams)
unfolding render_upstreams validate_upstreams upstream_dial
render_upstreams-valid std route transport [] h k = inl (_, refl)
render_upstreams-valid std route transport (upstream ∷ upstreams) h (k, ks) =
    let (one, rest) = >>-eq-ok (validate_upstream_url std upstream.url _) _ h in
    let raw =
      subst (λ (t : Text). validate_upstream_url std upstream.url (std.parse_url t) ≡ ok tt) k
        one in
    let (dialled, there) = dial_url-valid std route upstream.url upstream.url _ raw in
    rw there (elim (Bool-cases (differs transport dialled.1)) [
      | inl e ↦ rw e (inr refl)
      | inr e ↦ rw e (
          bind-RendersOrMixes route (render_upstreams std route (some dialled.1) upstreams) _
            (render_upstreams-valid std route (some dialled.1) upstreams rest ks)
            λ a. inl (_, refl))
    ])

render_security_entries-valid :
    (route : RouteConfig) (security : SecurityConfig)
    → lt_ℤ route.security.max_request_body_bytes 0 ≡ false
    → lt_ℤ security.max_request_body_bytes 0 ≡ false
    → (checked : List Entry × ℤ) × (render_security_entries route security ≡ ok checked)
unfolding render_security_entries
render_security_entries-valid route security h k =
    elim (Bool-cases (not security.enabled || route.security.disabled)) [
      | inl off ↦ (([], pos 0), rw off refl)
      | inr on ↦ ((security_entries route security, body_limit route security), rw (on, limit) refl)
    ]
  where
    limit : lt_ℤ (body_limit route security) 0 ≡ false
    limit = elim (Bool-cases (eq_ℤ route.security.max_request_body_bytes (pos 0))) [
      | inl e ↦ rw e k
      | inr e ↦ rw e h
    ]

guarded_match-valid :
    (route : RouteConfig) (ranges : List Text)
    → is_empty ranges ≡ false
    → (m : Matcher) × (guarded_match route ranges ≡ ok m)
unfolding guarded_match
guarded_match-valid route ranges h = elim (Bool-cases (route.exposure == codes "internal")) [
  | inl e ↦ (record (route_match route) { remote_ip = some ranges }, rw (e, h) refl)
  | inr e ↦ (route_match route, rw e refl)
]

-- What the last two steps of `validate` have found.
validate-parts :
    (std : Std) (route : RouteConfig)
    → validate std route ≡ ok tt
    → (validate_upstreams std route.upstreams ≡ ok tt)
      × (lt_ℤ route.security.max_request_body_bytes 0 ≡ false)
unfolding validate validate_route_security
validate-parts std route h =
    let host = trim_suffix_dot (to_lower (trim_space route.host)) in
    let path = trim_space route.path_prefix in
    let h1 = (>>-eq-ok (fail_if (host == []) host_required) _ h).1 in
    let h2 = (>>-eq-ok (validate_route_host host) _ h1).1 in
    let h3 = (>>-eq-ok (fail_if (is_empty route.upstreams) upstream_required) _ h2).1 in
    let slash =
      fail_if (not (path == []) && not (has_prefix path (codes "/"))) path_without_slash in
    let h4 = (>>-eq-ok slash _ h3).1 in
    let star = fail_if (not (path == []) && contains b'*' path) path_wildcard in
    let h5 = (>>-eq-ok star _ h4).1 in
    let (upstreams, secured) = >>-eq-ok (validate_upstreams std route.upstreams) _ h5 in
    let bound = fail_if (lt_ℤ route.security.max_request_body_bytes 0) negative_body_limit in
    (
      upstreams,
      fail_if-eq-ok (lt_ℤ route.security.max_request_body_bytes 0) negative_body_limit
          (>>-eq-ok bound _ secured).0,
    )

-- What the store accepts can be rendered: a route that passes the store's validation, with trimmed
-- URLs, renders, or fails for the one reason that its upstreams mix http and https. The gateway is to
-- have source ranges for internal routes and no negative limit for request bodies, as its own
-- configuration is checked to have.
pub render_route-valid :
    (std : Std) (route : RouteConfig) (auth : AuthConfig) (security : SecurityConfig)
    (ranges : List Text)
    → validate std route ≡ ok tt
    → All IsTrimmed route.upstreams
    → is_empty ranges ≡ false
    → lt_ℤ security.max_request_body_bytes 0 ≡ false
    → RendersOrMixes route (render_route std route auth security ranges)
unfolding render_route
render_route-valid std route auth security ranges h trimmed nonempty limit =
    let (upstreams, bounded) = validate-parts std route h in
    let (m, guarded) = guarded_match-valid route ranges nonempty in
    let (checked, secured) = render_security_entries-valid route security bounded limit in
    rw guarded (
      bind-RendersOrMixes route (render_upstreams std route none route.upstreams) _
        (render_upstreams-valid std route none route.upstreams upstreams trimmed)
        λ dialled. rw secured (inl (_, refl)))
