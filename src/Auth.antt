-- ===== src/Auth.antt =====
-- backend/internal/auth/auth.go: the middleware in front of the administration interface.
pub mod Laws
mod Tests
use caddy_reverse_proxy.Common.{
  ℕ, Bool, true, false, not, ◌&&◌, ◌||◌, List, [], ◌∷◌, String, any, if◌then◌else◌,
}
use caddy_reverse_proxy.Model.Config.{AuthConfig}
use caddy_reverse_proxy.Text.{Text, codes, ◌==◌, has_prefix, to_lower, trim_space, drop}

-- A request: what its `Header.Get` answers, empty for a header that it does not have.
pub record Request : Type 0 where
  pub header : Text → Text

-- What the middleware does: it calls the next handler, or it answers with a status and a message.
pub data Verdict : Type 0 where
  forwarded : Verdict
  refused : ℕ → Text → Verdict

unfoldable pub tokens_configured : AuthConfig → Bool
tokens_configured cfg =
    not (cfg.admin_token == []) || any (λ token. not (token == [])) cfg.admin_tokens

unfoldable pub token_allowed : AuthConfig → Text → Bool
token_allowed cfg provided =
    not (cfg.admin_token == []) && provided == cfg.admin_token
    || any (λ token. not (token == []) && provided == token) cfg.admin_tokens

-- The Authorization header is cut behind the seven bytes of "bearer ".
unfoldable pub token_from_request : Request → Text
token_from_request r =
    let value = r.header (codes "X-Admin-Token") in
    let authorization = r.header (codes "Authorization") in
    if not (value == [])
    then value
    else if has_prefix (to_lower authorization) (codes "bearer ")
    then trim_space (drop 7 authorization)
    else []

unfoldable pub middleware : AuthConfig → Request → Verdict
middleware cfg r =
    let provided = token_from_request r in
    if not cfg.required
    then forwarded
    else if not (tokens_configured cfg)
    then refused 503 (codes "admin token is not configured")
    else if provided == [] || not (token_allowed cfg provided)
    then refused 401 (codes "invalid admin token")
    else forwarded
