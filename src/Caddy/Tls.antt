-- ===== src/Caddy/Tls.antt =====
-- backend/internal/caddy/config.go: the automation of certificates.
use caddy_reverse_proxy.Common.{
  Bool, true, false, not, ◌&&◌, ◌||◌, Option, none, some, List, [], ◌∷◌, if◌then◌else◌, is_empty,
}
use caddy_reverse_proxy.Text.{Text, codes, ◌==◌, to_lower, trim_space}
use caddy_reverse_proxy.Model.Config.{
  Float64, between_0_and_1, AzureDnsChallengeConfig, CertificateConfig,
}

-- Tenant, client and secret of an app registration.
pub record Registration : Type 0 where
  pub tenant_id : Text
  pub client_id : Text
  pub client_secret : Text

pub record DnsProvider : Type 0 where
  pub subscription_id : Text
  pub resource_group_name : Text
  pub registration : Option Registration

-- The module, "zerossl" or "acme", with the keys that it has.
pub record CertificateIssuer : Type 0 where
  pub module_name : Text
  pub ca : Option Text
  pub email : Option Text
  pub dns : Option DnsProvider

pub record TlsPolicy : Type 0 where
  pub subjects : List Text
  pub issuer : CertificateIssuer
  pub renewal_window_ratio : Option Float64

pub record TlsApp : Type 0 where
  pub policies : List TlsPolicy
  pub automate : List Text

unfoldable pub azure_dns_provider : AzureDnsChallengeConfig → DnsProvider
azure_dns_provider cfg = record {
  subscription_id = cfg.subscription_id;
  resource_group_name = cfg.resource_group;
  registration =
      if cfg.authentication == codes "appregistration"
      then some (record {
        tenant_id = cfg.tenant_id;
        client_id = cfg.client_id;
        client_secret = cfg.client_secret;
      })
      else none;
}

abbrev pub nonempty : Text → Option Text
nonempty s = if s == [] then none else some s

abbrev pub issuer_name : CertificateConfig → Text
issuer_name cfg = to_lower (trim_space cfg.issuer)

-- The `ca` of the default case of the switch.
unfoldable pub acme_directory : CertificateConfig → Text
acme_directory cfg =
    if cfg.staging
    then codes "https://acme-staging-v02.api.letsencrypt.org/directory"
    else if cfg.ca_directory == []
    then codes "https://acme-v02.api.letsencrypt.org/directory"
    else cfg.ca_directory

unfoldable pub certificate_issuer : CertificateConfig → Bool → CertificateIssuer
unfolding acme_directory azure_dns_provider
certificate_issuer cfg dns_challenge = record {
  module_name = if issuer_name cfg == codes "zerossl" then codes "zerossl" else codes "acme";
  ca =
      if issuer_name cfg == codes "zerossl"
      then none
      else if issuer_name cfg == codes "custom"
      then nonempty cfg.ca_directory
      else some (acme_directory cfg);
  email = nonempty cfg.email;
  dns = if dns_challenge then some (azure_dns_provider cfg.dns_challenge.azure) else none;
}

-- applyRenewalWindow
unfoldable pub renewal_window : Float64 → Option Float64
renewal_window ratio = if between_0_and_1 ratio then some ratio else none

abbrev policy_of : CertificateConfig → List Text → Bool → TlsPolicy
policy_of cfg subjects dns_challenge = record {
  subjects = subjects;
  issuer = certificate_issuer cfg dns_challenge;
  renewal_window_ratio = renewal_window cfg.renewal_window_ratio;
}

unfoldable pub tls_automation : CertificateConfig → Option TlsApp
unfolding certificate_issuer renewal_window
tls_automation cfg =
    if issuer_name cfg == [] || issuer_name cfg == codes "default"
    then none
    else some (record {
      policies =
          if not (cfg.dns_challenge.provider == []) && not (is_empty cfg.subjects)
          then policy_of cfg cfg.subjects true ∷ policy_of cfg [] false ∷ []
          else policy_of cfg [] false ∷ [];
      automate = cfg.subjects;
    })
