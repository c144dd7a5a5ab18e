-- ===== src/Caddy/Samples.antt =====
-- A small gateway with two routes, for the tests.
use caddy_reverse_proxy.Common.{true, false, some, [], ◌∷◌}
use caddy_reverse_proxy.Common.Int.{pos}
use caddy_reverse_proxy.Text.{codes}
use caddy_reverse_proxy.Model.{RouteSecurityConfig, RouteConfig}
use caddy_reverse_proxy.Model.Config.{
  AppConfig, AuthConfig, SecurityConfig, GatewayConfig, CertificateConfig, finite,
}
use caddy_reverse_proxy.Routes.Std.{Std}

abbrev pub one_host : Std
one_host = record {
  parse_ip = λ s. true;
  parse_cidr = λ s. true;
  parse_url = λ s. some (record {
    scheme = codes "http";
    host = codes "web:8080";
    hostname = codes "web";
    port = codes "8080";
  });
}

abbrev pub plain_security : RouteSecurityConfig
plain_security = record {
  disabled = false;
  max_request_body_bytes = pos 0;
  additional_denied_methods = [];
  additional_denied_path_prefixes = codes "/secret" ∷ [];
  allowed_cidrs = [];
  blocked_cidrs = codes "10.0.0.0/8" ∷ [];
}

abbrev pub shop : RouteConfig
shop = record {
  id = codes "r1";
  name = codes "shop";
  host = codes "shop.example.com";
  listener_id = [];
  listener_name = [];
  listener_port = pos 0;
  listener_protocol = [];
  backend_pool_id = [];
  backend_pool_name = [];
  path_prefix = [];
  exposure = codes "protected";
  enabled = true;
  is_public = true;
  https = true;
  web_socket = false;
  is_protected = true;
  source = [];
  headers = (codes "X-Admin-Token", codes "x") ∷ (codes "X-Real", codes "y") ∷ [];
  security = plain_security;
  upstreams = record { name = codes "web"; url = codes "http://web:8080"; health_path = [] } ∷ [];
  discovered = false;
  last_error = [];
  last_updated = 0;
}

abbrev pub api : RouteConfig
api = record shop { id = codes "r2"; path_prefix = codes "/api" }

abbrev pub small_auth : AuthConfig
small_auth = record {
  required = true;
  admin_token = codes "t0";
  admin_tokens = codes " " ∷ [];
  protected_routes = record {
    allow_bearer_token = false;
    allow_admin_token_header = false;
    additional_header_name = [];
    additional_header_value = [];
  };
}

abbrev pub small_security : SecurityConfig
small_security = record {
  enabled = true;
  max_request_body_bytes = pos 1024;
  denied_methods = codes "TRACE" ∷ [];
  denied_path_prefixes = [];
  allowed_cidrs = [];
  blocked_cidrs = [];
}

abbrev pub small_certificate : CertificateConfig
small_certificate = record {
  issuer = codes "letsencrypt";
  email = [];
  staging = false;
  ca_directory = [];
  subjects = codes "*.example.com" ∷ [];
  renewal_window_ratio = finite (pos 1) 2;
  dns_challenge = record {
    provider = codes "azure";
    azure = record {
      subscription_id = [];
      resource_group = [];
      authentication = [];
      tenant_id = [];
      client_id = [];
      client_secret = [];
    };
  };
}

abbrev pub small_gateway : GatewayConfig
small_gateway = record {
  http_listen = codes ":80";
  https_listen = codes ":443";
  caddy_admin_endpoint = codes "http://127.0.0.1:2019";
  caddy_bin = [];
  state_dir = [];
  caddy_data_dir = codes "/data";
  certificate_file = [];
  internal_source_ranges = [];
  certificate = small_certificate;
}

abbrev pub small_config : AppConfig
small_config = record {
  profile = codes "vm";
  deployment_mode = [];
  control = record { listen = codes ":8080"; management_host = codes "ui.example.com" };
  gateway = small_gateway;
  docker = record { enabled = false; socket_path = []; endpoint = [] };
  azure = record {
    enabled = false;
    manage_dns = false;
    manage_nsg = false;
    subscription_id = [];
    resource_group = [];
    dns_zone_name = [];
    dns_zones = [];
    network_security_group_resource_group = [];
    network_security_group_name = [];
    public_ip_address = [];
    nsg_priority = pos 100;
    nsg_source_address_prefixes = [];
  };
  auth = small_auth;
  security = small_security;
  health = record { enabled = false; timeout_seconds = pos 5; default_path = [] };
  audit = record { enabled = false; file = [] };
  routes_file = [];
  reconcile_interval_seconds = pos 30;
}
