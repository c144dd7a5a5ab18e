-- ===== src/Caddy.antt =====
-- backend/internal/caddy/config.go: the configuration that the gateway generates for Caddy. The Go
-- code builds JSON out of maps; here each kind of object is a record, and an `Option` or an empty
-- list stands for a key that the code leaves out.
pub mod Matchers
pub mod Policies
pub mod Handlers
pub mod Entries
pub mod Servers
pub mod Tls
pub mod Render
pub mod Samples
mod Tests
use caddy_reverse_proxy.Common.{ℕ, Bool, Option, List}
use caddy_reverse_proxy.Common.Int.{ℤ}
use caddy_reverse_proxy.Text.{Text}

-- A matcher of requests. `not_remote_ip` is the key "not" with the one matcher "remote_ip" in it.
pub record Matcher : Type 0 where
  pub host : List Text
  pub expression : Option Text
  pub protocol : Option Text
  pub path : Option (List Text)
  pub remote_ip : Option (List Text)
  pub not_remote_ip : Option (List Text)
  pub method : Option (List Text)
  pub header : Option (Text × Text)

pub record ReverseProxy : Type 0 where
  pub upstreams : List Text
  pub tls : Bool
  -- The request headers that are deleted, and those that are set.
  pub deleted : List Text
  pub headers : List (Text × Text)

pub data Handler : Type 0 where
  -- A static response with a status and a body, or with a status and a Location header.
  static_response : ℕ → Text → Handler
  redirect : ℕ → Text → Handler
  log_append : Text → Text → Handler
  request_body : ℤ → Handler
  reverse_proxy : ReverseProxy → Handler

-- A route of Caddy: its one matcher and its handlers. All are terminal.
pub record Entry : Type 0 where
  pub matcher : Matcher
  pub handle : List Handler

-- A server, with the protocol that `protocols` notes for its address. The protocol decides on
-- `automatic_https` and `tls_connection_policies`, but for the certificates that are skipped.
pub record Server : Type 0 where
  pub listen : Text
  pub protocol : Text
  pub skip_certificates : List Text
  pub routes : List Entry

-- Why no configuration is generated. `panicked` is a failed type assertion.
pub data Error : Type 0 where
  management_host_needs_token no_listener panicked : Error
  listener_conflict : Text → Text → Text → Error
  no_default_listener : Text → Text → Error
  bad_listener : Text → Error
  internal_without_ranges mixed_schemes negative_body_limit : Text → Error
  bad_upstream : Text → Text → Error
