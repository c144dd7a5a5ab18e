-- ===== src/Caddy/Render/Order.antt =====
-- backend/internal/caddy/config.go: the order of the routes in Render. sort.SliceStable is insertion
-- from the right: an earlier element stays in front of its equals, as any stable sort leaves it.
pub mod Laws
use caddy_reverse_proxy.Common.{
  ℕ, Bool, true, false, not, List, [], ◌∷◌, if◌then◌else◌, ltb, length,
}
use caddy_reverse_proxy.Text.{Text, codes, ◌==◌, has_prefix, to_lower, trim_right}
use caddy_reverse_proxy.Text.Order.{at_most}
use caddy_reverse_proxy.Routes.Normalize.{is_slash}
use caddy_reverse_proxy.Model.{RouteConfig}

abbrev pub prefix_length : RouteConfig → ℕ
prefix_length route = length (trim_right is_slash route.path_prefix)

abbrev pub is_wildcard : RouteConfig → Bool
is_wildcard route = has_prefix (to_lower route.host) (codes "*.")

abbrev not_same : Bool → Bool → Bool
not_same true b = not b
not_same false b = b

-- The comparison of Render: whether `left` goes in front of `right`.
unfoldable pub less : RouteConfig → RouteConfig → Bool
less left right =
    if not_same (is_wildcard left) (is_wildcard right)
    then not (is_wildcard left)
    else if to_lower left.host == to_lower right.host
    then ltb (prefix_length right) (prefix_length left)
    else not (at_most (to_lower right.host) (to_lower left.host))

unfoldable pub insert_route : RouteConfig → List RouteConfig → List RouteConfig
insert_route r [] = r ∷ []
insert_route r (s ∷ routes) = if less s r then s ∷ insert_route r routes else r ∷ s ∷ routes

unfoldable pub sort_routes : List RouteConfig → List RouteConfig
unfolding insert_route
sort_routes [] = []
sort_routes (r ∷ routes) = insert_route r (sort_routes routes)
