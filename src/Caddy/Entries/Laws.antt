-- ===== src/Caddy/Entries/Laws.antt =====
-- Who reaches an upstream through the entries of one route.
use caddy_reverse_proxy.Common.{
  ◌≡◌, refl, sym, ap, subst, ◌∙◌, inl, inr, Bool, true, List, [], ◌∷◌, ◌++◌, map, none, some, ok,
  >>=-eq-ok, >>-eq-ok, if◌then◌else◌, arith, Bool-cases, All, is_empty, ok-injective,
}
use mathlib.Core.List.{append_assoc}
use caddy_reverse_proxy.Common.Int.{ℤ}
use caddy_reverse_proxy.Text.{Text, codes, ◌==◌}
use caddy_reverse_proxy.Text.Laws.{==_iff}
use caddy_reverse_proxy.Model.{RouteConfig}
use caddy_reverse_proxy.Model.Config.{AuthConfig, SecurityConfig}
use caddy_reverse_proxy.Routes.Std.{Std}
use caddy_reverse_proxy.Caddy.{Matcher, ReverseProxy, Entry}
use caddy_reverse_proxy.Caddy.Matchers.{route_match}
use caddy_reverse_proxy.Caddy.Policies.{
  HeaderPolicy, protected_header_policies, unique_header_names,
}
use caddy_reverse_proxy.Caddy.Policies.Laws.{
  IsCredential, Opens, protected_header_policies-Opens, Names, unique_header_names-Names,
}
use caddy_reverse_proxy.Caddy.Handlers.{reverse_proxy_handler}
use caddy_reverse_proxy.Caddy.Entries.{
  guarded_match, render_security_entries, fallback_entry, proxy_entry, with_header,
  protected_entries, access_entries, render_upstreams, render_route,
}
use caddy_reverse_proxy.Caddy.Entries.Forwarding.{
  Forwards, proxy_entry-Forwards, AllForward, AllForward-append, render_security_entries-AllForward,
}
use caddy_reverse_proxy.Caddy.Handlers.Laws.{IsKept, reverse_proxy_handler-IsKept}
use caddy_reverse_proxy.Caddy.Entries.Combined.{AllForward-map, AllForward-if, fallback-AllForward}

-- The request shows a configured header, every header that opens protected routes is deleted before
-- it is passed on, and none of them is set again.
abbrev pub IsAuthorised : AuthConfig → Matcher → ReverseProxy → Type 0
IsAuthorised auth matcher proxy =
    ((name : Text) × (value : Text) × (matcher.header ≡ some (name, value))
      × IsCredential auth name value)
    × All (Names proxy.deleted) (protected_header_policies auth)
    × All (IsKept proxy.deleted) proxy.headers

-- What a matcher lets through to the upstreams of a route.
abbrev pub IsPermitted : RouteConfig → AuthConfig → List Text → Matcher → ReverseProxy → Type 0
IsPermitted route auth ranges matcher proxy =
    (route.is_protected ≡ true → IsAuthorised auth matcher proxy)
    × (route.exposure ≡ codes "internal" → matcher.remote_ip ≡ some ranges)

guarded_match-ok :
    (route : RouteConfig) (ranges : List Text) {m : Matcher}
    → guarded_match route ranges ≡ ok m
    → (m.header ≡ none) × (route.exposure ≡ codes "internal" → m.remote_ip ≡ some ranges)
unfolding guarded_match route_match
guarded_match-ok route ranges h = elim (Bool-cases (route.exposure == codes "internal")) [
  | inl e ↦
      let same = ok-injective (>>-eq-ok _ _ (rw e at h)).1 in
      (ap (λ (x : Matcher). x.header) (sym same), λ _. ap (λ (x : Matcher). x.remote_ip) (sym same))
  | inr e ↦
      let same = ok-injective (rw e at h) in
      (
        ap (λ (x : Matcher). x.header) (sym same),
        λ internal. absurd (ground (arith, ==_iff route.exposure (codes "internal"))),
      )
]

if_true : {xs : List Entry} (ys : List Entry) {b : Bool} → b ≡ true → (if b then xs else ys) ≡ xs
if_true ys h = rw h refl

-- The entries end with one that asks for no header and forwards nothing.
abbrev pub EndsRefusing : List Entry → Type 0
EndsRefusing entries =
    (before : List Entry) × (last : Entry) × (entries ≡ before ++ last ∷ [])
    × (last.matcher.header ≡ none)
    × Forwards (λ _ _. ⊥) last

abbrev pub proxied : RouteConfig → List Text → Bool → List Text → ReverseProxy
proxied route upstreams tls strip = reverse_proxy_handler upstreams tls strip route.headers

module _ (route : RouteConfig) (auth : AuthConfig) (ranges : List Text) (m : Matcher) (limit : ℤ)
    (upstreams : List Text) (tls : Bool) (bare : m.header ≡ none)
    (inside : route.exposure ≡ codes "internal" → m.remote_ip ≡ some ranges) where
  policy-Forwards :
      (policy : HeaderPolicy)
      → Opens auth policy
      → Forwards (IsPermitted route auth ranges) (
          proxy_entry route
            (with_header m policy)
            limit
            (proxied route upstreams tls (unique_header_names (protected_header_policies auth))))
  unfolding reverse_proxy_handler
  policy-Forwards policy h =
      let strip = unique_header_names (protected_header_policies auth) in
      proxy_entry-Forwards (IsPermitted route auth ranges) route (with_header m policy) limit
        (proxied route upstreams tls strip)
        (
          λ _. (
            (policy.name, policy.value, refl, h),
            unique_header_names-Names (protected_header_policies auth),
            reverse_proxy_handler-IsKept upstreams tls strip route.headers,
          ),
          inside,
        )

  protected_entries-AllForward :
      AllForward
        (IsPermitted route auth ranges)
        (protected_entries route auth m limit (proxied route upstreams tls))
  unfolding protected_entries
  protected_entries-AllForward =
      AllForward-append
        (AllForward-map (IsPermitted route auth ranges) (Opens auth)
          (λ policy.
            proxy_entry route (with_header m policy) limit
              (proxied route upstreams tls (unique_header_names (protected_header_policies auth))))
          (protected_header_policies auth) policy-Forwards (protected_header_policies-Opens auth))
        (fallback-AllForward (IsPermitted route auth ranges) route m
          (is_empty (protected_header_policies auth)))

  access_entries-AllForward :
      AllForward
        (IsPermitted route auth ranges)
        (access_entries route auth m limit (proxied route upstreams tls))
  unfolding access_entries
  access_entries-AllForward =
      AllForward-if route.is_protected (λ _. protected_entries-AllForward)
        λ free. record {
          at = (
            proxy_entry-Forwards (IsPermitted route auth ranges) route m limit
                (proxied route upstreams tls []) (λ shut. cc, inside),
            tt,
          );
        }

  protected_entries-EndsRefusing :
      EndsRefusing (protected_entries route auth m limit (proxied route upstreams tls))
  unfolding protected_entries
  protected_entries-EndsRefusing = (
    map
        (λ policy.
          proxy_entry route (with_header m policy) limit
            (proxied route upstreams tls (unique_header_names (protected_header_policies auth))))
        (protected_header_policies auth),
    fallback_entry route m (is_empty (protected_header_policies auth)),
    refl,
    unfold fallback_entry in bare,
    (fallback-AllForward (λ _ _. ⊥) route m (is_empty (protected_header_policies auth))).at.0,
  )

  access_entries-EndsRefusing :
      (checks : List Entry)
      → route.is_protected ≡ true
      → EndsRefusing (checks ++ access_entries route auth m limit (proxied route upstreams tls))
  unfolding access_entries
  access_entries-EndsRefusing checks shut =
      let (before, last, e, bare_header, refusing) = protected_entries-EndsRefusing in
      (
        checks ++ before,
        last,
        ap (λ (entries : List Entry). checks ++ entries) (if_true _ shut ∙ e)
            ∙ sym (append_assoc checks before (last ∷ [])),
        bare_header,
        refusing,
      )

-- The entries of renderRoute: rejections, and then the entries of the route behind its matcher.
pub render_route-ok :
    (std : Std) (route : RouteConfig) (auth : AuthConfig) (security : SecurityConfig)
    (ranges : List Text) {entries : List Entry}
    → render_route std route auth security ranges ≡ ok entries
    → (m : Matcher) × (upstreams : List Text × Bool) × (checked : List Entry × ℤ) × (guarded_match
          route ranges
        ≡ ok m)
      × (render_security_entries route security ≡ ok checked)
      × (checked.0 ++ access_entries route auth m checked.1 (proxied route upstreams.0 upstreams.1)
          ≡ entries)
unfolding render_route
render_route-ok std route auth security ranges h =
    let (m, guarded, h1) = >>=-eq-ok _ _ h in
    let (upstreams, dialled, h2) =
      >>=-eq-ok (render_upstreams std route none route.upstreams) _ h1 in
    let (checked, secured, h3) = >>=-eq-ok (render_security_entries route security) _ h2 in
    (m, upstreams, checked, guarded, secured, ok-injective h3)

-- When a route is rendered, each of its entries forwards a request only if that is permitted. For a
-- protected route the entry matches one header, whose value is a nonblank token of the configuration
-- in a form that is allowed, or the additional header; all headers that open protected routes are
-- deleted from the request, and no header that is set, other than Host, is one of them. For an
-- internal route the entry matches the internal source ranges only. The entries of a protected route
-- end with one that asks for no header and forwards nothing.
pub render_route-IsPermitted :
    (std : Std) (route : RouteConfig) (auth : AuthConfig) (security : SecurityConfig)
    (ranges : List Text) (entries : List Entry)
    → render_route std route auth security ranges ≡ ok entries
    → All (Forwards (IsPermitted route auth ranges)) entries
      × (route.is_protected ≡ true → EndsRefusing entries)
render_route-IsPermitted std route auth security ranges entries h =
    let (m, upstreams, checked, guarded, secured, same) =
      render_route-ok std route auth security ranges h in
    let (bare, inside) = guarded_match-ok route ranges guarded in
    (
      subst (λ (list : List Entry). All (Forwards (IsPermitted route auth ranges)) list) same
          (AllForward-append (render_security_entries-AllForward route security secured) (
            access_entries-AllForward route auth ranges m checked.1 upstreams.0 upstreams.1 bare
              inside)).at,
      λ shut. subst EndsRefusing same (
          access_entries-EndsRefusing route auth ranges m checked.1 upstreams.0 upstreams.1 bare
            inside checked.0 shut),
    )
