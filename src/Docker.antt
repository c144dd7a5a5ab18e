-- ===== src/Docker.antt =====
-- backend/internal/docker/network.go: the container that the gateway runs in, the networks that it
-- shares with another container, and the address at which it reaches that one.
pub mod Laws
mod Tests
use caddy_reverse_proxy.Common.{
  Bool, true, false, not, ◌&&◌, ◌||◌, Option, none, some, List, [], ◌∷◌, find, any, if◌then◌else◌,
}
use caddy_reverse_proxy.Text.{Text, codes, ◌==◌, has_prefix, trim_space}
use caddy_reverse_proxy.Text.Order.{sort_texts}

pub record NetworkEndpoint : Type 0 where
  pub name : Text
  pub address : Text

-- The fields of model.ContainerService that this file reads. A label that is not there reads as
-- the empty text.
pub record ContainerService : Type 0 where
  pub id : Text
  pub name : Text
  pub labels : Text → Text
  pub networks : List Text
  pub network_endpoints : List NetworkEndpoint

abbrev pub is_gateway : Text → ContainerService → Bool
is_gateway hostname c = c.id == hostname || has_prefix c.id hostname || c.name == hostname

-- `none` for the hostname: os.Hostname fails.
unfoldable pub gateway_container : Option Text → List ContainerService → Option ContainerService
gateway_container none containers = none
gateway_container (some hostname) containers =
    if hostname == [] then none else find (is_gateway hostname) containers

abbrev pub is_shared : List Text → Text → Bool
is_shared gateway_networks network =
    any (λ n. network == n) gateway_networks
    && not (network == codes "host")
    && not (network == codes "none")

-- The loop of SharedNetworks.
unfoldable pub keep_shared : List Text → List Text → List Text
keep_shared gateway_networks [] = []
keep_shared gateway_networks (network ∷ networks) =
    let rest = keep_shared gateway_networks networks in
    if is_shared gateway_networks network then network ∷ rest else rest

unfoldable pub shared_networks : List Text → List Text → List Text
shared_networks container_networks gateway_networks =
    sort_texts (keep_shared gateway_networks container_networks)

abbrev pub has_address : Text → NetworkEndpoint → Bool
has_address network endpoint = endpoint.name == network && not (trim_space endpoint.address == [])

-- The first loop of SharedNetworkAddress.
unfoldable pub endpoint_address : List NetworkEndpoint → List Text → Option Text
endpoint_address endpoints [] = none
endpoint_address endpoints (network ∷ networks) = elim (find (has_address network) endpoints) [
  | some endpoint ↦ some (trim_space endpoint.address)
  | none ↦ endpoint_address endpoints networks
]

-- The second loop: the name that Docker's own resolver knows outside the bridge network.
unfoldable pub service_name : ContainerService → List Text → Text
service_name c [] = []
service_name c (network ∷ networks) =
    let rest = service_name c networks in
    let name = trim_space (c.labels (codes "com.docker.compose.service")) in
    if network == codes "bridge" then rest else if name == [] then c.name else name

unfoldable pub shared_network_address : ContainerService → List Text → Text
shared_network_address c gateway_networks =
    let shared = shared_networks c.networks gateway_networks in
    elim (endpoint_address c.network_endpoints shared) [
      | some address ↦ address
      | none ↦ service_name c shared
    ]
