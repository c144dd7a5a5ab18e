-- ===== src/Routes/Std.antt =====
-- The parts of Go's `net` and `net/url` that the store calls, and what one call of the store takes
-- from the operating system. The parsers are parameters: nothing is assumed of them.
use caddy_reverse_proxy.Common.{ℕ, Bool, Option}
use caddy_reverse_proxy.Text.{Text}
use caddy_reverse_proxy.Persistence.{Fault}

-- The fields of *url.URL that are read: `Scheme`, `Host`, `Hostname()` and `Port()`.
pub record Url : Type 0 where
  pub scheme : Text
  pub host : Text
  pub hostname : Text
  pub port : Text

pub record Std : Type 0 where
  -- net.ParseIP(s) != nil, net.ParseCIDR(s) without an error
  pub parse_ip : Text → Bool
  pub parse_cidr : Text → Bool
  -- url.Parse
  pub parse_url : Text → Option Url

-- The readings of the clock that one call makes, numbered by the place of the reading, the step of a
-- write to disk that fails, and whether reading the file fails though it is there.
pub record Call : Type 0 where
  pub now : ℕ → ℕ
  pub fault : Option Fault
  pub unreadable : Bool
