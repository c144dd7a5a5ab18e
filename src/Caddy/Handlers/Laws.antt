-- ===== src/Caddy/Handlers/Laws.antt =====
-- Which headers the reverse proxy of a route sets.
use caddy_reverse_proxy.Common.{
  ◌≡◌, refl, ◌⊎◌, inl, inr, Bool, true, false, ◌||◌, List, [], ◌∷◌, arith, Bool-cases, All,
}
use caddy_reverse_proxy.Text.{Text, codes, ◌==◌, trim_space}
use caddy_reverse_proxy.Text.HostPort.{equal_fold}
use caddy_reverse_proxy.Caddy.Policies.{header_name_in}
use caddy_reverse_proxy.Caddy.Handlers.{
  assign, canonical_name, set_header, set_headers, reverse_proxy_handler,
}

-- A header that is set is the Host header, or is none of those that are deleted.
abbrev pub IsKept : List Text → Text × Text → Type 0
IsKept strip header = (header.0 ≡ codes "Host") ⊎ (header_name_in header.0 strip ≡ false)

assign-IsKept :
    (strip : List Text) (name value : Text) (m : List (Text × Text))
    → IsKept strip (name, value)
    → All (IsKept strip) m
    → All (IsKept strip) (assign name value m)
unfolding assign
assign-IsKept strip name value [] h k = (h, tt)
assign-IsKept strip name value ((key, old) ∷ m) h (k, ks) = elim (Bool-cases (key == name)) [
  | inl e ↦ rw e (h, ks)
  | inr e ↦ rw e (k, assign-IsKept strip name value m h ks)
]

set_header-IsKept :
    (strip : List Text) (name value : Text) (m : List (Text × Text))
    → All (IsKept strip) m
    → All (IsKept strip) (set_header strip name value m)
set_header-IsKept strip name value m h =
    elim (Bool-cases (name == [] || header_name_in name strip)) [
      | inl e ↦ rw e h
      | inr e ↦ rw e (assign-IsKept strip (canonical_name name) value m (kept e) h)
    ]
  where
    kept :
        (name == [] || header_name_in name strip) ≡ false
        → IsKept strip (canonical_name name, value)
    kept e = elim (Bool-cases (equal_fold name (codes "Host"))) [
      | inl f ↦ rw f (inl refl)
      | inr f ↦ rw f (inr (ground arith))
    ]

set_headers-IsKept :
    (strip : List Text) (m headers : List (Text × Text))
    → All (IsKept strip) m
    → All (IsKept strip) (set_headers strip m headers)
unfolding set_headers
set_headers-IsKept strip m [] h = h
set_headers-IsKept strip m ((name, value) ∷ headers) h =
    set_headers-IsKept strip (set_header strip (trim_space name) value m) headers
      (set_header-IsKept strip (trim_space name) value m h)

pub reverse_proxy_handler-IsKept :
    (upstreams : List Text) (tls : Bool) (strip : List Text) (headers : List (Text × Text))
    → All (IsKept strip) (reverse_proxy_handler upstreams tls strip headers).headers
unfolding reverse_proxy_handler
reverse_proxy_handler-IsKept upstreams true strip headers =
    set_headers-IsKept strip _ headers (inl refl, tt)
reverse_proxy_handler-IsKept upstreams false strip headers = set_headers-IsKept strip _ headers tt
