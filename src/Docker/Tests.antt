-- ===== src/Docker/Tests.antt =====
-- A container that shares one network with the gateway.
use caddy_reverse_proxy.Common.{◌≡◌, ◌≢◌, ◌↔◌, ◌⊎◌, [], ◌∷◌, List, Any, Distinct, find, any}
use caddy_reverse_proxy.Text.{Text, codes, ◌==◌, trim, trim_space, trim_left, trim_right}
use caddy_reverse_proxy.Text.Order.{AtMost, at_most, insert_text, sort_texts}
use caddy_reverse_proxy.Docker.{
  ContainerService, keep_shared, shared_networks, endpoint_address, shared_network_address,
}
use caddy_reverse_proxy.Docker.Laws.{
  IsShared, HasEndpoint, IsServiceName, shared_networks_lem, shared_network_address_lem,
}

abbrev web : ContainerService
web = record {
  id = codes "0123";
  name = codes "web";
  labels = λ label. [];
  networks = codes "host" ∷ codes "front" ∷ [];
  network_endpoints =
      record { name = codes "front"; address = codes "10.0.0.2" }
      ∷ record { name = codes "back"; address = codes "10.9.0.2" }
      ∷ [];
}

abbrev gateway_networks : List Text
gateway_networks = codes "front" ∷ codes "host" ∷ []

shared_networks_lem_example :
    Distinct AtMost (shared_networks web.networks gateway_networks)
    × ((n : Text)
        → Any (λ t. n ≡ t) (shared_networks web.networks gateway_networks)
          ↔ (Any (λ t. n ≡ t) web.networks × IsShared gateway_networks n))
shared_networks_lem_example = shared_networks_lem web.networks gateway_networks

reached : shared_network_address web gateway_networks ≢ []
unfolding shared_network_address shared_networks keep_shared endpoint_address find any ◌==◌
    sort_texts insert_text at_most trim_space trim trim_left trim_right
reached h = cc

shared_network_address_lem_example :
    (n : Text) × Any (λ t. n ≡ t) web.networks
    × IsShared gateway_networks n
    × (HasEndpoint web n (shared_network_address web gateway_networks)
        ⊎ ((n ≢ codes "bridge") × IsServiceName web (shared_network_address web gateway_networks)))
shared_network_address_lem_example = shared_network_address_lem web gateway_networks reached
