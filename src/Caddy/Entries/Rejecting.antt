-- ===== src/Caddy/Entries/Rejecting.antt =====
-- Which requests the rejections of a route keep from its upstreams.
use caddy_reverse_proxy.Common.{
  ℕ, ◌≡◌, refl, ap, subst, inl, inr, Bool, true, false, not, ◌||◌, some, List, [], ◌∷◌, ◌++◌, ok,
  ok-injective, arith, Bool-cases, All, any, find,
}
use caddy_reverse_proxy.Common.Int.{ℤ, lt_ℤ}
use caddy_reverse_proxy.Text.{Text}
use caddy_reverse_proxy.Caddy.Matchers.Laws.{IsPlain, IsPathMatcher}
use caddy_reverse_proxy.Model.{RouteConfig}
use caddy_reverse_proxy.Model.Config.{AuthConfig, SecurityConfig}
use caddy_reverse_proxy.Routes.Std.{Std}
use caddy_reverse_proxy.Caddy.{Matcher, Entry}
use caddy_reverse_proxy.Caddy.Entries.{
  security_rejection, reject_any, security_entries, body_limit, render_security_entries,
  access_entries, render_route,
}
use caddy_reverse_proxy.Caddy.Entries.Forwarding.{Forwards, security_entries-AllForward}
use caddy_reverse_proxy.Caddy.Entries.Laws.{proxied, render_route-ok}
use caddy_reverse_proxy.Caddy.Entries.Requests.{Request, IsAccepted, IsOnRoute, IsDenied}
use caddy_reverse_proxy.Caddy.Entries.Denying.{Hits, IsRejected, IsDenied-IsRejected}

-- The first entry that takes the request forwards nothing.
abbrev pub IsRefused : (Matcher → Bool) → List Entry → Type 0
IsRefused matches entries =
    (entry : Entry) × (find (λ e. matches e.matcher) entries ≡ some entry)
    × Forwards (λ _ _. ⊥) entry

module _ (matches : Matcher → Bool) where
  abbrev takes : Entry → Bool
  takes e = matches e.matcher

  first-IsRefused :
      (xs ys : List Entry)
      → any takes xs ≡ true
      → All (Forwards (λ _ _. ⊥)) xs
      → IsRefused matches (xs ++ ys)
  unfolding any find
  first-IsRefused [] ys h k = cc
  first-IsRefused (x ∷ xs) ys h (k, ks) = elim (Bool-cases (matches x.matcher)) [
    | inl e ↦ (x, rw e refl, k)
    | inr e ↦
        let (entry, found, refusing) = first-IsRefused xs ys (rw e at h) ks in
        (entry, rw e found, refusing)
  ]

  -- Some entry takes the request.
  record Takes (xs : List Entry) : Type 0 where
    at : any takes xs ≡ true

  Takes-left : (xs ys : List Entry) → Takes xs → Takes (xs ++ ys)
  unfolding any
  Takes-left [] ys h = absurd (ground (arith, h.at))
  Takes-left (x ∷ xs) ys h = elim (Bool-cases (matches x.matcher)) [
    | inl e ↦ record { at = rw e refl }
    | inr e ↦
        let rest = Takes-left xs ys (record { at = rw e at h.at }) in record { at = rw e rest.at }
  ]

  Takes-right : (xs ys : List Entry) → Takes ys → Takes (xs ++ ys)
  unfolding any
  Takes-right [] ys h = h
  Takes-right (x ∷ xs) ys h =
      let rest = Takes-right xs ys h in record { at = ground (arith, rest.at) }

  module _ (route : RouteConfig) where
    reject_any-Takes :
        (values : List Text) (matcher : List Text → Matcher) (status : ℕ)
        → Hits matches values matcher
        → Takes (reject_any route values matcher status)
    unfolding reject_any security_rejection any
    reject_any-Takes [] matcher status (h, k) = absurd (h refl)
    reject_any-Takes (value ∷ values) matcher status (h, k) = record { at = rw k refl }

    security_entries-Takes :
        (security : SecurityConfig)
        → IsRejected route security matches
        → Takes (security_entries route security)
    unfolding security_entries
    security_entries-Takes security (inl h) = search (Takes-left, reject_any-Takes)
    security_entries-Takes security (inr (inl h)) =
        search (Takes-right, Takes-left, reject_any-Takes)
    security_entries-Takes security (inr (inr (inl h))) =
        search (Takes-right, Takes-left, reject_any-Takes)
    security_entries-Takes security (inr (inr (inr (inl h)))) =
        search (Takes-right, Takes-left, reject_any-Takes)
    security_entries-Takes security (inr (inr (inr (inr h)))) =
        search (Takes-right, Takes-left, reject_any-Takes)

render_security_entries-on :
    (route : RouteConfig) (security : SecurityConfig) {checked : List Entry × ℤ}
    → security.enabled ≡ true
    → route.security.disabled ≡ false
    → render_security_entries route security ≡ ok checked
    → security_entries route security ≡ checked.0
unfolding render_security_entries
render_security_entries-on route security on used h =
    let off : (not security.enabled || route.security.disabled) ≡ false = ground arith in
    elim (Bool-cases (lt_ℤ (body_limit route security) 0)) [
      | inl e ↦ absurd (ground arith)
      | inr e ↦ ap (λ (c : List Entry × ℤ). c.0) (ok-injective (rw e at (rw off at h)))
    ]

-- A request that the security policy denies is refused, as far as said here: when a route is rendered with the policy on
-- and not disabled for the route, and a request for the route comes from a range that the gateway or
-- the route blocks, from outside the ranges that one of them allows, has a method that one of them
-- denies, or has a path below a prefix that one of them denies, then the first of the route's entries
-- that takes it forwards nothing. It does not matter what else takes the request, nor which tokens it
-- shows. Caddy is taken to do what it documents: a matcher accepts a request that all its keys take,
-- and path patterns ignore case. The route's prefix and the denied prefix are to have no character
-- with a meaning of its own in a pattern, and to be in a form that trimming a second time does not
-- change. The letters of the path may be in any case, but one spelling of it is to be below both
-- prefixes, trimmed and otherwise as they are written; so the theorem does not reach a denied prefix
-- that writes what it has in common with the route's prefix in another case.
pub render_route-IsRefused :
    (std : Std) (route : RouteConfig) (auth : AuthConfig) (security : SecurityConfig)
    (ranges : List Text) (entries : List Entry) (request : Request) (rest : Text)
    (matches : Matcher → Bool)
    → ((m : Matcher) → IsAccepted request m → matches m ≡ true)
    → IsPathMatcher (b'/' ∷ rest) request.path
    → IsPlain route.path_prefix
    → IsOnRoute request (b'/' ∷ rest) route
    → render_route std route auth security ranges ≡ ok entries
    → security.enabled ≡ true
    → route.security.disabled ≡ false
    → IsDenied request (b'/' ∷ rest) route security
    → IsRefused matches entries
render_route-IsRefused std route auth security ranges entries request rest matches caddy paths plain
      asked h on used denied =
    let (m, upstreams, checked, guarded, secured, same) =
      render_route-ok std route auth security ranges h in
    let first = render_security_entries-on route security on used secured in
    let behind = access_entries route auth m checked.1 (proxied route upstreams.0 upstreams.1) in
    let rejected =
      IsDenied-IsRejected request rest route paths plain asked matches caddy security denied in
    subst (IsRefused matches) same (
      subst (λ (es : List Entry). IsRefused matches (es ++ behind)) first
        (first-IsRefused matches (security_entries route security) behind
          (security_entries-Takes matches route security rejected).at
          (security_entries-AllForward route security).at))
