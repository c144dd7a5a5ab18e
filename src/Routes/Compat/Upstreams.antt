-- ===== src/Routes/Compat/Upstreams.antt =====
-- backend/internal/routes/resources.go: the upstream loop of migrateRouteLocked.
use caddy_reverse_proxy.Common.{
  not, ◌&&◌, Option, none, some, List, [], ◌∷◌, ◌++◌, map, Result, ok, err, if◌then◌else◌,
}
use caddy_reverse_proxy.Common.Int.{ℤ, pos, eq_ℤ}
use caddy_reverse_proxy.Text.{Text, ◌==◌, to_lower, trim_space, atoi}
use caddy_reverse_proxy.Model.{BackendTarget, UpstreamTarget}
use caddy_reverse_proxy.Routes.Errors.{Error, upstream_invalid, upstream_port, mixed_schemes}
use caddy_reverse_proxy.Routes.Std.{Std, Url}
use caddy_reverse_proxy.Routes.Normalize.{or_default, default_port}

-- The variables of the upstream loop of migrateRouteLocked.
pub record ParsedUpstreams : Type 0 where
  pub protocol : Text
  pub port : ℤ
  pub health_path : Text
  pub targets : List BackendTarget

abbrev pub no_upstreams : ParsedUpstreams
no_upstreams = record { protocol = []; port = pos 0; health_path = []; targets = [] }

abbrev parsed_port : Text → Option ℤ → Result Error ℤ
parsed_port url none = err (upstream_port url)
parsed_port url (some port) = ok port

unfoldable pub port_of_url : Text → Url → Result Error ℤ
port_of_url url parsed =
    if parsed.port == []
    then ok (default_port (to_lower parsed.scheme))
    else parsed_port url (atoi parsed.port)

abbrev add_upstream : UpstreamTarget → Url → ParsedUpstreams → ℤ → ParsedUpstreams
add_upstream upstream parsed u port =
    let common = if eq_ℤ u.port (pos 0) then port else u.port in
    record {
      protocol = or_default u.protocol (to_lower parsed.scheme);
      port = common;
      health_path = (elim u.targets [
        | [] ↦ upstream.health_path
        | _ ∷ _ ↦ if u.health_path == upstream.health_path then u.health_path else []
      ]);
      targets =
          u.targets
          ++ record {
            name = upstream.name;
            address = parsed.hostname;
            port = (if eq_ℤ port common then pos 0 else port);
            health_path = upstream.health_path;
          }
            ∷ [];
    }

abbrev bind_port :
    Result Error ℤ → (ℤ → Result Error ParsedUpstreams) → Result Error ParsedUpstreams
bind_port (ok port) f = f port
bind_port (err e) f = err e

unfoldable pub read_upstream :
    UpstreamTarget → Option Url → ParsedUpstreams → Result Error ParsedUpstreams
unfolding port_of_url
read_upstream upstream none u = err (upstream_invalid upstream.url)
read_upstream upstream (some parsed) u =
    if parsed.hostname == []
    then err (upstream_invalid upstream.url)
    else if not (u.protocol == []) && not (u.protocol == to_lower parsed.scheme)
    then err mixed_schemes
    else bind_port (port_of_url upstream.url parsed)
        (λ port. ok (add_upstream upstream parsed u port))

abbrev clear_health_path : BackendTarget → BackendTarget
clear_health_path target = record target { health_path = [] }

unfoldable pub compat_targets : ParsedUpstreams → List BackendTarget
compat_targets u = if u.health_path == [] then u.targets else map clear_health_path u.targets

module _ (std : Std) where
  unfoldable pub read_upstreams :
      List UpstreamTarget → ParsedUpstreams → Result Error ParsedUpstreams
  read_upstreams [] u = ok u
  read_upstreams (upstream ∷ upstreams) u =
      elim (read_upstream upstream (std.parse_url (trim_space upstream.url)) u) [
        | ok u' ↦ read_upstreams upstreams u'
        | err e ↦ err e
      ]
