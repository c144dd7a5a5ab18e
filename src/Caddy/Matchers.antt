-- ===== src/Caddy/Matchers.antt =====
-- backend/internal/caddy/config.go: the matchers of paths, and lists without repetitions.
pub mod Paths
pub mod Samples
pub mod Laws
use caddy_reverse_proxy.Common.{
  Bool, true, false, ◌||◌, Option, none, some, List, [], ◌∷◌, ◌++◌, if◌then◌else◌, any,
}
use caddy_reverse_proxy.Common.Int.{gt_ℤ}
use caddy_reverse_proxy.Text.{Text, codes, ◌==◌, has_prefix, itoa}
use caddy_reverse_proxy.Model.{RouteConfig}
use caddy_reverse_proxy.Routes.Normalize.{normalize_path_prefix}
use caddy_reverse_proxy.Caddy.{Matcher}

-- The loop of appendUnique; `output` holds the same texts as `seen`.
unfoldable pub append_new : List Text → List Text → List Text
append_new output [] = output
append_new output (value ∷ values) =
    append_new (if any (λ old. old == value) output then output else output ++ value ∷ []) values

unfoldable pub append_unique : List Text → List Text → List Text
unfolding append_new
append_unique base values = append_new base values

-- strings.TrimRight(strings.TrimSpace(prefix), "/")
abbrev pub trim_prefix : Text → Text
trim_prefix prefix = normalize_path_prefix prefix

abbrev prefix_matchers : Text → List Text
prefix_matchers prefix =
    if prefix == [] then codes "/*" ∷ [] else prefix ∷ (prefix ++ codes "/*") ∷ []

unfoldable pub route_path_matchers : Text → List Text
route_path_matchers path_prefix = prefix_matchers (trim_prefix path_prefix)

-- intersectPathPrefixes on trimmed prefixes; `none` is its `false`.
unfoldable pub intersect_trimmed : Text → Text → Option Text
intersect_trimmed left right =
    if left == []
    then some right
    else if right == []
    then some left
    else if left == right || has_prefix left (right ++ codes "/")
    then some left
    else if has_prefix right (left ++ codes "/")
    then some right
    else none

unfoldable pub intersect_path_prefixes : Text → Text → Option Text
unfolding intersect_trimmed
intersect_path_prefixes left right = intersect_trimmed (trim_prefix left) (trim_prefix right)

abbrev pub add_restricted : List Text → Option Text → List Text
add_restricted output none = output
add_restricted output (some prefix) = append_unique output (route_path_matchers prefix)

unfoldable pub restrict_from : Text → List Text → List Text → List Text
restrict_from route_prefix output [] = output
restrict_from route_prefix output (denied ∷ prefixes) =
    restrict_from route_prefix (add_restricted output (intersect_path_prefixes route_prefix denied))
      prefixes

unfoldable pub restricted_path_matchers : Text → List Text → List Text
unfolding restrict_from
restricted_path_matchers route_prefix denied_prefixes =
    restrict_from route_prefix [] denied_prefixes

unfoldable pub route_match : RouteConfig → Matcher
unfolding route_path_matchers
route_match route = record {
  host = route.host ∷ [];
  expression =
      if gt_ℤ route.listener_port 0
      then some (codes "{http.request.local.port} == " ++ itoa route.listener_port)
      else none;
  protocol = if route.listener_protocol == [] then none else some route.listener_protocol;
  path = if route.path_prefix == [] then none else some (route_path_matchers route.path_prefix);
  remote_ip = none;
  not_remote_ip = none;
  method = none;
  header = none;
}
