-- ===== src/Caddy/Entries/Requests.antt =====
-- Requests as the matchers of Caddy see them, and those that a security policy denies.
use caddy_reverse_proxy.Common.{
  ◌≡◌, ◌≢◌, ◌⊎◌, Bool, true, false, some, List, [], ◌++◌, All, Any, Option, none,
}
use caddy_reverse_proxy.Common.Int.{gt_ℤ}
use caddy_reverse_proxy.Text.{Text, codes, itoa}
use caddy_reverse_proxy.Caddy.Matchers.Paths.{Below}
use caddy_reverse_proxy.Caddy.Matchers.Laws.{Spells, IsPlain}
use caddy_reverse_proxy.Model.{RouteConfig}
use caddy_reverse_proxy.Model.Config.{SecurityConfig}
use caddy_reverse_proxy.Caddy.{Matcher}
use caddy_reverse_proxy.Caddy.Matchers.{trim_prefix}

-- What a matcher asks about one request: whether a host, an expression, a protocol, a path pattern, a
-- source range, a method or a header takes it.
pub record Request : Type 0 where
  pub host : Text → Bool
  pub expression : Text → Bool
  pub protocol : Text → Bool
  pub path : Text → Bool
  pub range : Text → Bool
  pub method : Text → Bool
  pub header : Text × Text → Bool

abbrev pub Passes : {A : Type 0} → (A → Type 0) → Option A → Type 0
Passes P none = Unit
Passes P (some a) = P a

abbrev pub AnyOf : (Text → Bool) → List Text → Type 0
AnyOf test values = Any (λ value. test value ≡ true) values

abbrev pub NoneOf : (Text → Bool) → List Text → Type 0
NoneOf test values = All (λ value. test value ≡ false) values

-- Every key of the matcher takes the request, by one of its values.
pub record IsAccepted (request : Request) (m : Matcher) : Type 0 where
  pub host : AnyOf request.host m.host
  pub expression : Passes (λ e. request.expression e ≡ true) m.expression
  pub protocol : Passes (λ p. request.protocol p ≡ true) m.protocol
  pub path : Passes (AnyOf request.path) m.path
  pub remote_ip : Passes (AnyOf request.range) m.remote_ip
  pub not_remote_ip : Passes (NoneOf request.range) m.not_remote_ip
  pub method : Passes (AnyOf request.method) m.method
  pub header : Passes (λ h. request.header h ≡ true) m.header

-- The request, which asks for the path `asked`, is one for the route: it has its host, comes in at its port by
-- its protocol, and some spelling of its path is below its prefix.
pub record IsOnRoute (request : Request) (asked : Text) (route : RouteConfig) : Type 0 where
  pub host : request.host route.host ≡ true
  pub port :
      gt_ℤ route.listener_port 0 ≡ true
      → request.expression (codes "{http.request.local.port} == " ++ itoa route.listener_port)
        ≡ true
  pub protocol : route.listener_protocol ≢ [] → request.protocol route.listener_protocol ≡ true
  pub path : (q : Text) × Spells q asked × Below q (trim_prefix route.path_prefix)

-- Some prefix of the list, a plain one, has the path below it.
abbrev pub IsBelowAny : Text → List Text → Type 0
IsBelowAny q prefixes = Any (λ prefix. IsPlain prefix × Below q (trim_prefix prefix)) prefixes

-- The request comes from a range that the gateway or the route blocks, from outside all ranges that
-- one of them allows, if it lists any, has a method that one of them denies, or has a path of which
-- one spelling is below the prefix of the route and below a prefix that one of them denies.
abbrev pub IsDenied : Request → Text → RouteConfig → SecurityConfig → Type 0
IsDenied request path route security =
    (AnyOf request.range security.blocked_cidrs ⊎ AnyOf request.range route.security.blocked_cidrs)
    ⊎ (((security.allowed_cidrs ≢ []) × NoneOf request.range security.allowed_cidrs)
        ⊎ (((route.security.allowed_cidrs ≢ []) × NoneOf request.range route.security.allowed_cidrs)
            ⊎ ((AnyOf request.method security.denied_methods
                  ⊎ AnyOf request.method route.security.additional_denied_methods)
                ⊎ ((q : Text) × Spells q path
                    × Below q (trim_prefix route.path_prefix)
                    × (IsBelowAny q security.denied_path_prefixes
                        ⊎ IsBelowAny q route.security.additional_denied_path_prefixes)))))
