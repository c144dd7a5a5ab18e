-- ===== src/Model.antt =====
-- backend/internal/model/model.go: the routing records. A `map[string]string` is an association
-- list; the code copies it and never reads it. Instants are nanoseconds since the epoch, and 0 is
-- the zero time.
pub mod Config
use caddy_reverse_proxy.Common.{ℕ, Bool, List}
use caddy_reverse_proxy.Common.Int.{ℤ}
use caddy_reverse_proxy.Text.{Text}

pub record UpstreamTarget : Type 0 where
  pub name : Text
  pub url : Text
  pub health_path : Text

pub record Listener : Type 0 where
  pub id : Text
  pub name : Text
  pub hostname : Text
  pub port : ℤ
  pub protocol : Text
  pub source : Text
  pub last_updated : ℕ

pub record BackendTarget : Type 0 where
  pub name : Text
  pub address : Text
  pub port : ℤ
  pub health_path : Text

pub record BackendPool : Type 0 where
  pub id : Text
  pub name : Text
  pub targets : List BackendTarget
  pub source : Text
  pub last_updated : ℕ

pub record RouteSecurityConfig : Type 0 where
  pub disabled : Bool
  pub max_request_body_bytes : ℤ
  pub additional_denied_methods : List Text
  pub additional_denied_path_prefixes : List Text
  pub allowed_cidrs : List Text
  pub blocked_cidrs : List Text

pub record RoutingRule : Type 0 where
  pub id : Text
  pub name : Text
  pub listener_id : Text
  pub backend_pool_id : Text
  pub backend_port : ℤ
  pub backend_protocol : Text
  pub path_prefix : Text
  pub health_path : Text
  pub exposure : Text
  pub enabled : Bool
  pub web_socket : Bool
  pub headers : List (Text × Text)
  pub security : RouteSecurityConfig
  pub source : Text
  pub last_error : Text
  pub last_updated : ℕ

pub record RouteConfig : Type 0 where
  pub id : Text
  pub name : Text
  pub host : Text
  pub listener_id : Text
  pub listener_name : Text
  pub listener_port : ℤ
  pub listener_protocol : Text
  pub backend_pool_id : Text
  pub backend_pool_name : Text
  pub path_prefix : Text
  pub exposure : Text
  pub enabled : Bool
  pub is_public : Bool
  pub https : Bool
  pub web_socket : Bool
  pub is_protected : Bool
  pub source : Text
  pub headers : List (Text × Text)
  pub security : RouteSecurityConfig
  pub upstreams : List UpstreamTarget
  pub discovered : Bool
  pub last_error : Text
  pub last_updated : ℕ

pub record RouteHealthStatus : Type 0 where
  pub route_id : Text
  pub host : Text
  pub healthy : Bool
  pub checked_at : ℕ
  pub error : Text

pub record AzureResult : Type 0 where
  pub enabled : Bool
  pub dns_records : ℕ
  pub dns_deleted : ℕ
  pub nsg_rules : ℕ
  pub nsg_deleted : ℕ
  pub public_ip_address : Text
  pub warnings : List Text
  pub error : Text

pub record ReconcileResult : Type 0 where
  pub started_at : ℕ
  pub finished_at : ℕ
  pub duration : ℕ
  pub profile : Text
  pub explicit_routes : ℕ
  pub discovered_routes : ℕ
  pub applied_routes : ℕ
  pub health_checks : ℕ
  pub unhealthy_routes : ℕ
  pub caddy_loaded : Bool
  pub route_health : List RouteHealthStatus
  pub azure : AzureResult
  pub error : Text
