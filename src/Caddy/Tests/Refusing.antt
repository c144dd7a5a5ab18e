-- ===== src/Caddy/Tests/Refusing.antt =====
-- A request for a denied path, and a Caddy that accepts what all keys of a matcher take.
use caddy_reverse_proxy.Common.{
  ◌≡◌, ◌↔◌, refl, inl, inr, Bool, true, false, not, ◌&&◌, Option, none, some, List, [], ◌∷◌, All,
  Any, any, arith,
}
use caddy_reverse_proxy.Text.{
  Text, codes, ◌==◌, contains, contains_any, trim, trim_left, trim_right, trim_space, to_lower,
  lower,
}
use caddy_reverse_proxy.Routes.Normalize.{normalize_path_prefix}
use caddy_reverse_proxy.Caddy.{Matcher}
use caddy_reverse_proxy.Caddy.Matchers.{trim_prefix, restricted_path_matchers}
use caddy_reverse_proxy.Caddy.Matchers.Paths.{Below}
use caddy_reverse_proxy.Caddy.Matchers.Laws.{Spells, IsPlain, restricted_path_matchers_lem}
use caddy_reverse_proxy.Caddy.Matchers.Samples.{takes_path, takes_path-IsPathMatcher}
use caddy_reverse_proxy.Caddy.Entries.Requests.{
  Request, Passes, AnyOf, NoneOf, IsAccepted, IsOnRoute, IsDenied,
}
use caddy_reverse_proxy.Caddy.Entries.Rejecting.{IsRefused, render_route-IsRefused}
use caddy_reverse_proxy.Caddy.Samples.{one_host, shop, small_auth, small_security}
use caddy_reverse_proxy.Caddy.Tests.{shop_entries, shop_entries-ok}

-- GET /Secret/x on the host of the shop.
abbrev secret : Text
secret = codes "/Secret/x"

abbrev get_secret : Request
get_secret = record {
  host = λ host. host == codes "shop.example.com";
  expression = λ e. false;
  protocol = λ p. p == codes "https";
  path = takes_path secret;
  range = λ range. false;
  method = λ method. method == codes "GET";
  header = λ h. false;
}

holds : {A : Type 0} → (A → Bool) → Option A → Bool
holds test none = true
holds test (some a) = test a

accepts : Request → Matcher → Bool
unfolding holds
accepts r m =
    any r.host m.host
    && holds r.expression m.expression
    && holds r.protocol m.protocol
    && holds (any r.path) m.path
    && holds (any r.range) m.remote_ip
    && holds (λ ranges. not (any r.range ranges)) m.not_remote_ip
    && holds (any r.method) m.method
    && holds r.header m.header

AnyOf-any : (test : Text → Bool) (values : List Text) → AnyOf test values → any test values ≡ true
unfolding any
AnyOf-any test [] h = absurd h
AnyOf-any test (value ∷ values) h = ground (arith, AnyOf-any test values)

NoneOf-any :
    (test : Text → Bool) (values : List Text) → NoneOf test values → any test values ≡ false
unfolding any
NoneOf-any test [] h = refl
NoneOf-any test (value ∷ values) (h, hs) = ground (arith, NoneOf-any test values hs)

Passes-holds :
    {A : Type 0} (test : A → Bool) (o : Option A)
    → Passes (λ a. test a ≡ true) o
    → holds test o ≡ true
unfolding holds
Passes-holds test none h = refl
Passes-holds test (some a) h = h

Passes-any :
    (test : Text → Bool) (o : Option (List Text))
    → Passes (AnyOf test) o
    → holds (any test) o ≡ true
unfolding holds
Passes-any test none h = refl
Passes-any test (some values) h = AnyOf-any test values h

Passes-outside :
    (test : Text → Bool) (o : Option (List Text))
    → Passes (NoneOf test) o
    → holds (λ values. not (any test values)) o ≡ true
unfolding holds
Passes-outside test none h = refl
Passes-outside test (some values) h = ground (arith, NoneOf-any test values h)

IsAccepted-accepts : (r : Request) (m : Matcher) → IsAccepted r m → accepts r m ≡ true
unfolding accepts
IsAccepted-accepts r m h =
    let host = AnyOf-any r.host m.host h.host in
    let expression = Passes-holds r.expression m.expression h.expression in
    let protocol = Passes-holds r.protocol m.protocol h.protocol in
    let path = Passes-any r.path m.path h.path in
    let range = Passes-any r.range m.remote_ip h.remote_ip in
    let outside = Passes-outside r.range m.not_remote_ip h.not_remote_ip in
    let method = Passes-any r.method m.method h.method in
    let header = Passes-holds r.header m.header h.header in
    rw (host, expression, protocol, path, range, outside, method, header) refl

shop-IsPlain : IsPlain shop.path_prefix
unfolding normalize_path_prefix trim_space trim trim_left trim_right contains_any any
shop-IsPlain = (refl, refl)

secret-IsOnRoute : IsOnRoute get_secret secret shop
unfolding normalize_path_prefix trim_space trim trim_left trim_right ◌==◌
secret-IsOnRoute = record {
  host = refl;
  port = λ h. cc;
  protocol = λ h. absurd (h refl);
  path = (secret, refl, inl refl);
}

secret-IsDenied : IsDenied get_secret secret shop small_security
unfolding normalize_path_prefix trim_space trim trim_left trim_right contains_any contains any
    to_lower lower
secret-IsDenied = inr (
    inr (
      inr (
        inr (
          codes "/secret/x",
          refl,
          inl refl,
          inr (inl ((refl, refl), inr (inr (codes "x", refl)))),
        ))))

render_route-IsRefused_example : IsRefused (accepts get_secret) shop_entries
render_route-IsRefused_example =
    render_route-IsRefused one_host shop small_auth small_security [] shop_entries get_secret
      (codes "Secret/x") (accepts get_secret) (IsAccepted-accepts get_secret)
      (takes_path-IsPathMatcher secret) shop-IsPlain secret-IsOnRoute shop_entries-ok refl refl
      secret-IsDenied

api-IsPlain : IsPlain (codes "/api")
unfolding normalize_path_prefix trim_space trim trim_left trim_right contains_any contains any
api-IsPlain = (refl, refl)

denied-IsPlain : All IsPlain (codes "/api/secret" ∷ codes "/other" ∷ [])
unfolding normalize_path_prefix trim_space trim trim_left trim_right contains_any contains any
denied-IsPlain = ((refl, refl), ((refl, refl), tt))

restricted_path_matchers_lem_example :
    Any
      (λ pattern. takes_path (codes "/API/secret/x") pattern ≡ true)
      (restricted_path_matchers (codes "/api") (codes "/api/secret" ∷ codes "/other" ∷ []))
    ↔ ((q : Text) × Spells q (codes "/API/secret/x")
        × Below q (trim_prefix (codes "/api"))
        × Any (λ prefix. Below q (trim_prefix prefix)) (codes "/api/secret" ∷ codes "/other" ∷ []))
restricted_path_matchers_lem_example =
    restricted_path_matchers_lem (codes "API/secret/x") (takes_path (codes "/API/secret/x"))
      (takes_path-IsPathMatcher (codes "/API/secret/x")) (codes "/api")
      (codes "/api/secret" ∷ codes "/other" ∷ []) api-IsPlain denied-IsPlain
