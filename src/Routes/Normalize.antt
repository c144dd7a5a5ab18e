-- ===== src/Routes/Normalize.antt =====
-- backend/internal/routes/store.go and resources.go: the normal forms of texts, lists and routes.
pub mod Laws
pub mod Unique
use caddy_reverse_proxy.Common.{
  ℕ, Bool, true, false, ◌||◌, List, [], ◌∷◌, ◌++◌, map, if◌then◌else◌, eqb, any,
}
use caddy_reverse_proxy.Common.Int.{ℤ, pos}
use caddy_reverse_proxy.Text.{
  Text, codes, ◌==◌, to_lower, to_upper, trim_space, trim_suffix_dot, trim_right, contains, itoa,
}
use caddy_reverse_proxy.Model.{UpstreamTarget, RouteSecurityConfig, RouteConfig}

-- The loop of uniqueStrings; `seen` is its set.
unfoldable pub unique_from : List Text → List Text → List Text
unique_from seen [] = []
unique_from seen (value ∷ values) = elim (any (λ old. old == value) seen) [
  | true ↦ unique_from seen values
  | false ↦ value ∷ unique_from (value ∷ seen) values
]

unfoldable pub unique_strings : List Text → List Text
unfolding unique_from
unique_strings values = unique_from [] values

unfoldable pub trimmed_nonempty : List Text → List Text
trimmed_nonempty [] = []
trimmed_nonempty (value ∷ values) =
    let rest = trimmed_nonempty values in
    if trim_space value == [] then rest else trim_space value ∷ rest

unfoldable pub normalize_strings : List Text → List Text
unfolding unique_strings trimmed_nonempty
normalize_strings values = unique_strings (trimmed_nonempty values)

unfoldable pub normalize_methods : List Text → List Text
unfolding normalize_strings
normalize_methods methods = unique_strings (map to_upper (normalize_strings methods))

abbrev pub is_slash : ℕ → Bool
is_slash c = eqb c b'/'

abbrev trim_slashes : Text → Text
trim_slashes prefix = if prefix == codes "/" then prefix else trim_right is_slash prefix

unfoldable pub normalize_path_prefixes : List Text → List Text
unfolding normalize_strings
normalize_path_prefixes prefixes = unique_strings (map trim_slashes (normalize_strings prefixes))

unfoldable pub normalize_path_prefix : Text → Text
normalize_path_prefix prefix = trim_right is_slash (trim_space prefix)

unfoldable pub normalize_host : Text → Text
normalize_host host = trim_suffix_dot (to_lower (trim_space host))

-- The four lists that normalize and normalizeRoutingRule rewrite alike.
unfoldable pub normalize_security : RouteSecurityConfig → RouteSecurityConfig
unfolding normalize_methods normalize_path_prefixes normalize_strings
normalize_security security = record security {
  additional_denied_methods = normalize_methods security.additional_denied_methods;
  additional_denied_path_prefixes =
      normalize_path_prefixes security.additional_denied_path_prefixes;
  allowed_cidrs = normalize_strings security.allowed_cidrs;
  blocked_cidrs = normalize_strings security.blocked_cidrs;
}

unfoldable pub source_or : Text → Text → Text
source_or value fallback = if trim_space value == [] then fallback else value

unfoldable pub or_default : Text → Text → Text
or_default value fallback = if value == [] then fallback else value

abbrev pub trim_url : UpstreamTarget → UpstreamTarget
trim_url upstream = record upstream { url = trim_space upstream.url }

-- `exposure`, and what it makes of `Public` and `Protected`.
pub record Exposed : Type 0 where
  pub exposure : Text
  pub is_public : Bool
  pub is_protected : Bool

unfoldable pub expose : Text → Exposed
expose exposure =
    if exposure == codes "internal"
    then record { exposure = exposure; is_public = false; is_protected = false }
    else if exposure == codes "protected"
    then record { exposure = exposure; is_public = true; is_protected = true }
    else record { exposure = codes "public"; is_public = true; is_protected = false }

abbrev pub default_exposure : Bool → Text → Text → Text
default_exposure is_public source exposure =
    if exposure == []
    then (if is_public || source == codes "explicit" then codes "public" else codes "internal")
    else exposure

unfoldable pub normalize : RouteConfig → RouteConfig
unfolding normalize_host normalize_path_prefix normalize_security or_default expose
normalize route =
    let source = or_default route.source (codes "explicit") in
    let exposed =
      expose (default_exposure route.is_public source (to_lower (trim_space route.exposure))) in
    record route {
      host = normalize_host route.host;
      path_prefix = normalize_path_prefix route.path_prefix;
      upstreams = map trim_url route.upstreams;
      security = normalize_security route.security;
      source = source;
      exposure = exposed.exposure;
      is_public = exposed.is_public;
      is_protected = exposed.is_protected;
    }

unfoldable pub default_port : Text → ℤ
default_port protocol = if protocol == codes "https" then pos 443 else pos 80

-- net.JoinHostPort puts an address with a colon in brackets.
unfoldable pub host_port : Text → ℤ → Text
host_port address port =
    if contains b':' address
    then codes "[" ++ address ++ codes "]:" ++ itoa port
    else address ++ codes ":" ++ itoa port

-- `now` is what time.Now().UnixNano() returns.
unfoldable pub next_id : Text → ℕ → Text
next_id prefix now = prefix ++ codes "-" ++ itoa (pos now)

unfoldable pub id_or_next : Text → Text → ℕ → Text
unfolding next_id
id_or_next id prefix now = if id == [] then next_id prefix now else id
