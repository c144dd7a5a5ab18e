-- ===== src/Caddy/Policies.antt =====
-- backend/internal/caddy/config.go: the tokens and headers that open a protected route.
pub mod Laws
use caddy_reverse_proxy.Common.{
  Bool, true, false, not, ◌&&◌, ◌||◌, List, [], ◌∷◌, ◌++◌, if◌then◌else◌, any,
}
use caddy_reverse_proxy.Text.{Text, codes, ◌==◌, to_lower, trim_space}
use caddy_reverse_proxy.Text.HostPort.{equal_fold}
use caddy_reverse_proxy.Model.Config.{AuthConfig, ProtectedRouteConfig}

pub record HeaderPolicy : Type 0 where
  pub name : Text
  pub value : Text

unfoldable pub nonblank : List Text → List Text
nonblank [] = []
nonblank (token ∷ tokens) =
    let rest = nonblank tokens in if trim_space token == [] then rest else token ∷ rest

unfoldable pub auth_tokens : AuthConfig → List Text
unfolding nonblank
auth_tokens auth = nonblank (auth.admin_token ∷ auth.admin_tokens)

-- No way in is configured, so both headers with a token are allowed.
abbrev pub defaulted : ProtectedRouteConfig → Bool
defaulted p =
    not p.allow_bearer_token
    && not p.allow_admin_token_header
    && p.additional_header_name == []
    && p.additional_header_value == []

abbrev bearer_policy : Text → HeaderPolicy
bearer_policy token = record { name = codes "Authorization"; value = codes "Bearer " ++ token }

abbrev admin_policy : Text → HeaderPolicy
admin_policy token = record { name = codes "X-Admin-Token"; value = token }

unfoldable pub token_policies : Bool → Bool → List Text → List HeaderPolicy
token_policies bearer admin [] = []
token_policies bearer admin (token ∷ tokens) =
    (if bearer then bearer_policy token ∷ [] else [])
    ++ ((if admin then admin_policy token ∷ [] else []) ++ token_policies bearer admin tokens)

unfoldable pub protected_header_policies : AuthConfig → List HeaderPolicy
unfolding auth_tokens token_policies
protected_header_policies auth =
    let p = auth.protected_routes in
    token_policies (p.allow_bearer_token || defaulted p) (p.allow_admin_token_header || defaulted p)
      (auth_tokens auth)
    ++ (if not (p.additional_header_name == []) && not (p.additional_header_value == [])
        then record { name = p.additional_header_name; value = p.additional_header_value } ∷ []
        else [])

unfoldable pub unique_header_names_from : List Text → List HeaderPolicy → List Text
unique_header_names_from seen [] = []
unique_header_names_from seen (policy ∷ policies) =
    let key = to_lower policy.name in
    elim (any (λ old. old == key) seen) [
      | true ↦ unique_header_names_from seen policies
      | false ↦ policy.name ∷ unique_header_names_from (key ∷ seen) policies
    ]

unfoldable pub unique_header_names : List HeaderPolicy → List Text
unfolding unique_header_names_from
unique_header_names policies = unique_header_names_from [] policies

unfoldable pub header_name_in : Text → List Text → Bool
header_name_in name names = any (λ candidate. equal_fold name candidate) names
