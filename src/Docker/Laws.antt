-- ===== src/Docker/Laws.antt =====
-- Which networks are shared, and which addresses are reached over them.
use caddy_reverse_proxy.Common.{
  ◌≡◌, ◌≢◌, refl, sym, subst, ◌↔◌, ◌⊎◌, inl, inr, Bool, true, false, some, List, [], ◌∷◌, any, find,
  Any, Distinct, arith, if◌then◌else◌, Bool-cases, Option-cases,
}
use caddy_reverse_proxy.Text.{Text, codes, ◌==◌, trim_space}
use caddy_reverse_proxy.Text.Laws.{==_iff}
use caddy_reverse_proxy.Text.Order.{AtMost, sort_texts-IsSorted, sort_texts-Any}
use caddy_reverse_proxy.Docker.{
  NetworkEndpoint, ContainerService, is_shared, keep_shared, shared_networks, has_address,
  endpoint_address, service_name, shared_network_address,
}

any-Any : (s : Text) (texts : List Text) → (any (λ t. s == t) texts ≡ true) ↔ Any (λ t. s ≡ t) texts
unfolding any
any-Any s [] = (λ h. cc, λ h. absurd h)
any-Any s (t ∷ texts) = ground (arith, ==_iff s t, any-Any s texts)

-- The networks that count as shared with a gateway in the networks `gs`.
abbrev pub IsShared : List Text → Text → Type 0
IsShared gs n = Any (λ t. n ≡ t) gs × (n ≢ codes "host") × (n ≢ codes "none")

is_shared-IsShared : (gs : List Text) (n : Text) → (is_shared gs n ≡ true) ↔ IsShared gs n
is_shared-IsShared gs n =
    ground (arith, any-Any n gs, ==_iff n (codes "host"), ==_iff n (codes "none"))

keep_shared-Any :
    (gs : List Text) (n : Text) (ns : List Text)
    → Any (λ t. n ≡ t) (keep_shared gs ns) ↔ (Any (λ t. n ≡ t) ns × IsShared gs n)
unfolding keep_shared
keep_shared-Any gs n [] = (λ h. absurd h, λ h. absurd h.0)
keep_shared-Any gs n (t ∷ ns) = elim (Bool-cases (is_shared gs t)) [
  | inl shared ↦
      let good : IsShared gs t = (is_shared-IsShared gs t).0 shared in
      rw shared (
        λ h. elim h [
          | inl same ↦ (inl same, subst (IsShared gs) (sym same) good)
          | inr later ↦
              (inr ((keep_shared-Any gs n ns).0 later).0, ((keep_shared-Any gs n ns).0 later).1)
        ],
        λ h. elim h.0 [
          | inl same ↦ inl same
          | inr later ↦ inr ((keep_shared-Any gs n ns).1 (later, h.1))
        ],
      )
  | inr apart ↦ rw apart (
    λ h. (inr ((keep_shared-Any gs n ns).0 h).0, ((keep_shared-Any gs n ns).0 h).1),
    λ h. elim h.0 [
      | inl same ↦ absurd (not_shared t apart (subst (IsShared gs) same h.1))
      | inr later ↦ (keep_shared-Any gs n ns).1 (later, h.1)
    ],
  )
]
  where
    not_shared : (u : Text) → is_shared gs u ≡ false → ¬ IsShared gs u
    not_shared u h k = ground (arith, is_shared-IsShared gs u)

-- SharedNetworks answers, in ascending order, exactly the networks that both lists name, except
-- "host" and "none".
pub shared_networks_lem :
    (ns gs : List Text)
    → Distinct AtMost (shared_networks ns gs)
      × ((n : Text)
          → Any (λ t. n ≡ t) (shared_networks ns gs) ↔ (Any (λ t. n ≡ t) ns × IsShared gs n))
unfolding shared_networks
shared_networks_lem ns gs = (
  sort_texts-IsSorted (keep_shared gs ns),
  λ n. ground (arith, sort_texts-Any (λ t. n ≡ t) (keep_shared gs ns), keep_shared-Any gs n ns),
)

find-eq-some :
    {A : Type 0} (p : A → Bool) (xs : List A) {a : A}
    → find p xs ≡ some a
    → (p a ≡ true) × Any (λ x. x ≡ a) xs
unfolding find
find-eq-some p [] h = cc
find-eq-some p (x ∷ xs) {a} h = elim (Bool-cases (p x)) [
  | inl hit ↦ ground arith
  | inr miss ↦
      let later : find p xs ≡ some a = ground arith in
      let (hit, member) = find-eq-some p xs later in (hit, inr member)
]

-- An endpoint of the container in the network `n` with the address `address`.
abbrev pub HasEndpoint : ContainerService → Text → Text → Type 0
HasEndpoint c n address =
    (e : NetworkEndpoint) × Any (λ x. x ≡ e) c.network_endpoints
    × (e.name ≡ n)
    × (trim_space e.address ≡ address)

endpoint_address-eq-some :
    (c : ContainerService) (ns : List Text) {address : Text}
    → endpoint_address c.network_endpoints ns ≡ some address
    → (n : Text) × Any (λ t. n ≡ t) ns × HasEndpoint c n address
unfolding endpoint_address
endpoint_address-eq-some c [] h = cc
endpoint_address-eq-some c (n ∷ ns) {address} h =
    elim (Option-cases (find (has_address n) c.network_endpoints)) [
      | inl missing ↦
          let later : endpoint_address c.network_endpoints ns ≡ some address = ground arith in
          let (m, member, endpoint) = endpoint_address-eq-some c ns later in
          (m, inr member, endpoint)
      | inr (e, found) ↦
          let (hit, member) = find-eq-some (has_address n) c.network_endpoints found in
          (n, inl refl, (e, member, ground (arith, ==_iff e.name n), ground arith))
    ]

-- The name that a container has for Docker's resolver.
abbrev pub IsServiceName : ContainerService → Text → Type 0
IsServiceName c address =
    (address ≡ trim_space (c.labels (codes "com.docker.compose.service"))) ⊎ (address ≡ c.name)

one_of : (b : Bool) (x y : Text) → ((if b then x else y) ≡ y) ⊎ ((if b then x else y) ≡ x)
one_of true x y = inr refl
one_of false x y = inl refl

service_name-eq :
    (c : ContainerService) (ns : List Text)
    → service_name c ns ≢ []
    → (n : Text) × Any (λ t. n ≡ t) ns × (n ≢ codes "bridge") × IsServiceName c (service_name c ns)
unfolding service_name
service_name-eq c [] h = absurd (h refl)
service_name-eq c (n ∷ ns) h =
    let name = trim_space (c.labels (codes "com.docker.compose.service")) in
    elim (Bool-cases (n == codes "bridge")) [
      | inl bridge ↦
          let (m, member, other, name) = service_name-eq c ns (
            subst (λ b. (if b then service_name c ns else if name == [] then c.name else name) ≢ [])
              bridge h) in
          rw bridge (m, inr member, other, name)
      | inr other ↦
          rw other (
            n,
            inl refl,
            ground (arith, ==_iff n (codes "bridge")),
            one_of (name == []) c.name name,
          )
    ]

-- An address that SharedNetworkAddress answers is that of an endpoint of the container in a network
-- that it shares with the gateway, or a name of the container where they share a network that is
-- not the bridge. So nothing is reached over a network that is not shared.
pub shared_network_address_lem :
    (c : ContainerService) (gs : List Text)
    → shared_network_address c gs ≢ []
    → (n : Text) × Any (λ t. n ≡ t) c.networks
      × IsShared gs n
      × (HasEndpoint c n (shared_network_address c gs)
          ⊎ ((n ≢ codes "bridge") × IsServiceName c (shared_network_address c gs)))
unfolding shared_network_address
shared_network_address_lem c gs h =
    let shared = shared_networks c.networks gs in
    elim (Option-cases (endpoint_address c.network_endpoints shared)) [
      | inl missing ↦
          let (n, member, other, name) = service_name-eq c shared (λ e. h (ground arith)) in
          let (known, good) = ((shared_networks_lem c.networks gs).1 n).0 member in
          (n, known, good, inr (other, rw (shared_network_address, missing) name))
      | inr (address, found) ↦
          let (n, member, endpoint) = endpoint_address-eq-some c shared found in
          let (known, good) = ((shared_networks_lem c.networks gs).1 n).0 member in
          (n, known, good, inl (rw (shared_network_address, found) endpoint))
    ]
