-- ===== src/Auth/Laws.antt =====
-- Who passes the middleware.
use caddy_reverse_proxy.Common.{
  ◌≡◌, ◌≢◌, ◌↔◌, ◌⊎◌, inl, inr, true, false, not, ◌&&◌, List, [], ◌∷◌, any, Any, arith, Bool-cases,
}
use caddy_reverse_proxy.Text.{Text, ◌==◌}
use caddy_reverse_proxy.Text.Laws.{==_iff}
use caddy_reverse_proxy.Model.Config.{AuthConfig}
use caddy_reverse_proxy.Auth.{
  Request, forwarded, tokens_configured, token_allowed, token_from_request, middleware,
}

-- The tokens that the configuration names.
abbrev pub IsConfigured : AuthConfig → Text → Type 0
IsConfigured cfg token = (token ≡ cfg.admin_token) ⊎ Any (λ t. token ≡ t) cfg.admin_tokens

any-allowed :
    (token : Text) (tokens : List Text)
    → token ≢ []
    → (any (λ t. not (t == []) && token == t) tokens ≡ true) ↔ Any (λ t. token ≡ t) tokens
unfolding any
any-allowed token [] ne = (λ h. cc, λ h. absurd h)
any-allowed token (t ∷ tokens) ne =
    ground (arith, ==_iff t [], ==_iff token t, any-allowed token tokens ne)

any-configured :
    (token : Text) (tokens : List Text)
    → token ≢ []
    → Any (λ t. token ≡ t) tokens
    → any (λ t. not (t == [])) tokens ≡ true
unfolding any
any-configured token [] ne h = absurd h
any-configured token (t ∷ tokens) ne h = ground (arith, ==_iff t [], any-configured token tokens ne)

token_allowed-IsConfigured :
    (cfg : AuthConfig) (token : Text)
    → token ≢ []
    → (token_allowed cfg token ≡ true) ↔ IsConfigured cfg token
unfolding token_allowed
token_allowed-IsConfigured cfg token ne = ground (
  arith,
  ==_iff cfg.admin_token [],
  ==_iff token cfg.admin_token,
  any-allowed token cfg.admin_tokens ne,
)

IsConfigured-tokens_configured :
    (cfg : AuthConfig) (token : Text)
    → token ≢ []
    → IsConfigured cfg token
    → tokens_configured cfg ≡ true
unfolding tokens_configured
IsConfigured-tokens_configured cfg token ne h =
    ground (arith, ==_iff cfg.admin_token [], any-configured token cfg.admin_tokens ne)

-- The next handler is called exactly when the configuration asks for no token, or the token of the
-- request is not empty and one of those that the configuration names.
pub middleware-eq-forwarded :
    (cfg : AuthConfig) (r : Request)
    → (middleware cfg r ≡ forwarded) ↔ (
        (cfg.required ≡ false)
        ⊎ ((token_from_request r ≢ []) × IsConfigured cfg (token_from_request r)))
unfolding middleware
middleware-eq-forwarded cfg r =
    let token = token_from_request r in
    elim (Bool-cases (token == [])) [
      | inl empty ↦ ground (arith, ==_iff token [])
      | inr full ↦
          let ne : token ≢ [] = ground (arith, ==_iff token []) in
          ground (
            arith,
            ==_iff token [],
            token_allowed-IsConfigured cfg token ne,
            IsConfigured-tokens_configured cfg token ne,
          )
    ]
