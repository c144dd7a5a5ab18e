-- ===== src/Auth/Tests.antt =====
-- Requests with and without a token.
use caddy_reverse_proxy.Common.{◌≡◌, ◌≢◌, ◌↔◌, ◌⊎◌, true, false, [], ◌∷◌, if◌then◌else◌}
use caddy_reverse_proxy.Text.{codes, ◌==◌}
use caddy_reverse_proxy.Model.Config.{AuthConfig}
use caddy_reverse_proxy.Auth.{Request, forwarded, token_from_request, middleware}
use caddy_reverse_proxy.Auth.Laws.{IsConfigured, middleware-eq-forwarded}

abbrev two_tokens : AuthConfig
two_tokens = record {
  required = true;
  admin_token = [];
  admin_tokens = codes "a" ∷ codes "b" ∷ [];
  protected_routes = record {
    allow_bearer_token = true;
    allow_admin_token_header = true;
    additional_header_name = [];
    additional_header_value = [];
  };
}

abbrev bearer_b : Request
bearer_b = record {
  header = λ name. if name == codes "Authorization" then codes "Bearer b" else [];
}

middleware-eq-forwarded_example : (middleware two_tokens bearer_b ≡ forwarded) ↔ (
    (true ≡ false)
    ⊎ ((token_from_request bearer_b ≢ []) × IsConfigured two_tokens (token_from_request bearer_b)))
middleware-eq-forwarded_example = middleware-eq-forwarded two_tokens bearer_b
