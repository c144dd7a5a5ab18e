-- ===== src/Caddy/Servers.antt =====
-- backend/internal/caddy/config.go: the servers by address, the addresses of listeners, and the hosts
-- that a wildcard certificate covers.
pub mod Laws
use caddy_reverse_proxy.Common.{
  Bool, true, false, not, ◌&&◌, ◌||◌, Option, none, some, List, [], ◌∷◌, ◌++◌, Result, ok, err,
  if◌then◌else◌, any, find,
}
use caddy_reverse_proxy.Common.Int.{ℤ}
use caddy_reverse_proxy.Text.{
  Text, codes, ◌==◌, has_prefix, contains, drop, itoa, to_lower, trim_space, trim_suffix_dot,
}
use caddy_reverse_proxy.Text.HostPort.{equal_fold, trim_suffix, split_host_port, join_host_port}
use caddy_reverse_proxy.Model.Config.{GatewayConfig}
use caddy_reverse_proxy.Routes.Std.{Url, Std}
use caddy_reverse_proxy.Caddy.{Server, Error, listener_conflict}

abbrev pub is_any_host : Text → Bool
is_any_host host = host == [] || host == codes "0.0.0.0" || host == codes "::"

-- Two addresses split into host and port, where both can be split.
abbrev pub overlap_parts : Bool → Option (Text × Text) → Option (Text × Text) → Bool
overlap_parts same none right = same
overlap_parts same (some left) none = same
overlap_parts same (some (left_host, left_port)) (some (right_host, right_port)) =
    left_port == right_port
    && (left_host == right_host || is_any_host left_host || is_any_host right_host)

unfoldable pub listener_addresses_overlap : Text → Text → Bool
listener_addresses_overlap left right =
    overlap_parts (left == right) (split_host_port left) (split_host_port right)

unfoldable pub conflicts : Text → Text → Server → Bool
unfolding listener_addresses_overlap
conflicts address protocol server =
    not (server.protocol == protocol) && listener_addresses_overlap server.listen address

abbrev pub at_address : Text → Server → Bool
at_address address server = server.listen == address

-- A new server at the end, unless there is one at the address.
abbrev pub fresh_server : Text → Text → Server
fresh_server address protocol = record {
  listen = address;
  protocol = protocol;
  skip_certificates = [];
  routes = [];
}

unfoldable pub add_server : Text → Text → List Server → List Server
add_server address protocol servers =
    if any (at_address address) servers
    then servers
    else servers ++ fresh_server address protocol ∷ []

-- The search goes through a map in Go: of several conflicts the error names any one.
abbrev pub or_conflict : Text → Option Server → List Server → Result Error (List Server)
or_conflict address none servers = ok servers
or_conflict address (some existing) servers =
    err (listener_conflict address existing.protocol existing.listen)

unfoldable pub ensure_server : Text → Text → List Server → Result Error (List Server)
unfolding conflicts add_server
ensure_server address protocol servers =
    or_conflict address (find (conflicts address protocol) servers)
      (add_server address protocol servers)

-- `servers[address]` is changed in place.
unfoldable pub update_server : (Server → Server) → Text → List Server → List Server
update_server f address [] = []
update_server f address (server ∷ servers) =
    let rest = update_server f address servers in
    if at_address address server then f server ∷ servers else server ∷ rest

abbrev covered_prefix : Text → Text → Bool
covered_prefix host prefix =
    not (prefix == host) && not (prefix == []) && not (contains b'.' prefix)

unfoldable pub subject_covers : Text → Text → Bool
subject_covers host subject =
    has_prefix subject (codes "*.")
    && covered_prefix host (trim_suffix host (codes "." ++ drop 2 subject))

abbrev pub host_text : Text → Text
host_text host = trim_suffix_dot (to_lower (trim_space host))

unfoldable pub wildcard_certificate_covers_host : List Text → Text → Bool
unfolding subject_covers
wildcard_certificate_covers_host subjects host =
    if host_text host == [] || has_prefix (host_text host) (codes "*.")
    then false
    else any (λ subject. subject_covers (host_text host) (host_text subject)) subjects

abbrev loopback_of : Text → Option (Text × Text) → Text
loopback_of listen none =
    if has_prefix listen (codes ":") then codes "127.0.0.1" ++ listen else listen
loopback_of listen (some (host, port)) = join_host_port (codes "127.0.0.1") port

unfoldable pub loopback_target : Text → Text
loopback_target listen = loopback_of listen (split_host_port listen)

abbrev address_of : ℤ → Option (Text × Text) → Text
address_of port none = codes ":" ++ itoa port
address_of port (some (host, default)) = join_host_port host (itoa port)

unfoldable pub listener_address : GatewayConfig → Text → ℤ → Text
listener_address cfg protocol port = address_of port (
    split_host_port
      (if equal_fold protocol (codes "https") then cfg.https_listen else cfg.http_listen))

abbrev host_or_default : Option Url → Text
host_or_default none = codes "127.0.0.1:2019"
host_or_default (some url) = if url.host == [] then codes "127.0.0.1:2019" else url.host

unfoldable pub admin_listen_from_endpoint : Std → Text → Text
admin_listen_from_endpoint std endpoint = host_or_default (std.parse_url endpoint)
