-- ===== src/Model/Config.antt =====
-- backend/internal/model/model.go: the records of the configuration. An `int32` is an integer here,
-- since nothing computes with it.
use caddy_reverse_proxy.Common.{ℕ, ◌^◌, Bool, false, ◌&&◌, List, ltb}
use caddy_reverse_proxy.Common.Int.{ℤ, pos, negsuc, gt_ℤ}
use caddy_reverse_proxy.Text.{Text}

-- A float64: `finite m k` is m / 2 ^ k, as every finite float64 is.
pub data Float64 : Type 0 where
  nan : Float64
  infinite : Bool → Float64
  finite : ℤ → ℕ → Float64

-- 0 < x && x < 1
unfoldable pub between_0_and_1 : Float64 → Bool
between_0_and_1 nan = false
between_0_and_1 (infinite negative) = false
between_0_and_1 (finite (pos m) k) = gt_ℤ (pos m) 0 && ltb m (2 ^ k)
between_0_and_1 (finite (negsuc m) k) = false

pub record ControlConfig : Type 0 where
  pub listen : Text
  pub management_host : Text

pub record AzureDnsChallengeConfig : Type 0 where
  pub subscription_id : Text
  pub resource_group : Text
  pub authentication : Text
  pub tenant_id : Text
  pub client_id : Text
  pub client_secret : Text

pub record DnsChallengeConfig : Type 0 where
  pub provider : Text
  pub azure : AzureDnsChallengeConfig

pub record CertificateConfig : Type 0 where
  pub issuer : Text
  pub email : Text
  pub staging : Bool
  pub ca_directory : Text
  pub subjects : List Text
  pub renewal_window_ratio : Float64
  pub dns_challenge : DnsChallengeConfig

pub record GatewayConfig : Type 0 where
  pub http_listen : Text
  pub https_listen : Text
  pub caddy_admin_endpoint : Text
  pub caddy_bin : Text
  pub state_dir : Text
  pub caddy_data_dir : Text
  pub certificate_file : Text
  pub internal_source_ranges : List Text
  pub certificate : CertificateConfig

pub record DockerConfig : Type 0 where
  pub enabled : Bool
  pub socket_path : Text
  pub endpoint : Text

pub record AzureDnsZoneConfig : Type 0 where
  pub name : Text
  pub resource_group : Text

pub record AzureConfig : Type 0 where
  pub enabled : Bool
  pub manage_dns : Bool
  pub manage_nsg : Bool
  pub subscription_id : Text
  pub resource_group : Text
  pub dns_zone_name : Text
  pub dns_zones : List AzureDnsZoneConfig
  pub network_security_group_resource_group : Text
  pub network_security_group_name : Text
  pub public_ip_address : Text
  pub nsg_priority : ℤ
  pub nsg_source_address_prefixes : List Text

pub record ProtectedRouteConfig : Type 0 where
  pub allow_bearer_token : Bool
  pub allow_admin_token_header : Bool
  pub additional_header_name : Text
  pub additional_header_value : Text

pub record AuthConfig : Type 0 where
  pub required : Bool
  pub admin_token : Text
  pub admin_tokens : List Text
  pub protected_routes : ProtectedRouteConfig

pub record SecurityConfig : Type 0 where
  pub enabled : Bool
  pub max_request_body_bytes : ℤ
  pub denied_methods : List Text
  pub denied_path_prefixes : List Text
  pub allowed_cidrs : List Text
  pub blocked_cidrs : List Text

pub record HealthConfig : Type 0 where
  pub enabled : Bool
  pub timeout_seconds : ℤ
  pub default_path : Text

pub record AuditConfig : Type 0 where
  pub enabled : Bool
  pub file : Text

pub record AppConfig : Type 0 where
  pub profile : Text
  pub deployment_mode : Text
  pub control : ControlConfig
  pub gateway : GatewayConfig
  pub docker : DockerConfig
  pub azure : AzureConfig
  pub auth : AuthConfig
  pub security : SecurityConfig
  pub health : HealthConfig
  pub audit : AuditConfig
  pub routes_file : Text
  pub reconcile_interval_seconds : ℤ
