-- ===== src/Routes/Samples.antt =====
-- A small listener, pool, rule and route, and a small url.Parse, for the tests.
use caddy_reverse_proxy.Common.{
  ℕ, ◌+◌, true, false, Option, none, some, [], ◌∷◌, eqb, if◌then◌else◌,
}
use caddy_reverse_proxy.Common.Int.{pos}
use caddy_reverse_proxy.Text.{Text, codes, drop}
use caddy_reverse_proxy.Model.{Listener, BackendPool, RouteSecurityConfig, RoutingRule, RouteConfig}
use caddy_reverse_proxy.Persistence.{sync, Disk}
use caddy_reverse_proxy.Routes.Std.{Url, Std, Call}
use caddy_reverse_proxy.Routes.Store.{Content, World, new_store}

-- A small url.Parse: scheme, "://", host, and a port behind a colon.
before : ℕ → Text → Text
before d [] = []
before d (c ∷ s) = let rest = before d s in if eqb c d then [] else c ∷ rest

after : ℕ → Text → Text
after d [] = []
after d (c ∷ s) = let rest = after d s in if eqb c d then s else rest

unfoldable pub small_url : Text → Option Url
unfolding before after
small_url s =
    let host = drop 2 (after b':' s) in
    some (record {
      scheme = before b':' s;
      host = host;
      hostname = before b':' host;
      port = after b':' host;
    })

abbrev pub small_std : Std
small_std = record { parse_ip = λ s. false; parse_cidr = λ s. false; parse_url = small_url }

abbrev pub quiet : Call
quiet = record { now = λ k. k + 100; fault = none; unreadable = false }

abbrev pub full_disk : Call
full_disk = record quiet { fault = some sync }

abbrev open_security : RouteSecurityConfig
open_security = record {
  disabled = false;
  max_request_body_bytes = pos 0;
  additional_denied_methods = codes "trace" ∷ [];
  additional_denied_path_prefixes = [];
  allowed_cidrs = [];
  blocked_cidrs = [];
}

abbrev pub shop_listener : Listener
shop_listener = record {
  id = codes "l1";
  name = [];
  hostname = codes " Shop.Example.com. ";
  port = pos 0;
  protocol = [];
  source = [];
  last_updated = 0;
}

abbrev pub shop_pool : BackendPool
shop_pool = record {
  id = codes "p1";
  name = codes "web";
  targets = record { name = []; address = codes "web"; port = pos 0; health_path = [] } ∷ [];
  source = [];
  last_updated = 0;
}

abbrev pub shop_rule : RoutingRule
shop_rule = record {
  id = codes "r1";
  name = [];
  listener_id = codes "l1";
  backend_pool_id = codes "p1";
  backend_port = pos 8080;
  backend_protocol = [];
  path_prefix = codes "/a/";
  health_path = [];
  exposure = [];
  enabled = true;
  web_socket = false;
  headers = [];
  security = open_security;
  source = [];
  last_error = [];
  last_updated = 0;
}

abbrev pub shop_route : RouteConfig
shop_route = record {
  id = codes "api";
  name = [];
  host = codes "api.example.com";
  listener_id = [];
  listener_name = [];
  listener_port = pos 0;
  listener_protocol = [];
  backend_pool_id = [];
  backend_pool_name = [];
  path_prefix = [];
  exposure = [];
  enabled = true;
  is_public = false;
  https = true;
  web_socket = false;
  is_protected = false;
  source = [];
  headers = [];
  security = open_security;
  upstreams =
      record { name = []; url = codes "http://api:9000"; health_path = [] }
      ∷ record { name = []; url = codes "http://api2:9001"; health_path = [] }
      ∷ [];
  discovered = false;
  last_error = [];
  last_updated = 0;
}

abbrev pub empty_disk : Disk Content
empty_disk = record { target = none; temporary = none }

abbrev pub start : World
start = record { store = new_store (codes "/routes.json"); disk = empty_disk }
