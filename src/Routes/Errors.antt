-- ===== src/Routes/Errors.antt =====
-- The errors of backend/internal/routes, one constructor for each message, with its arguments.
use caddy_reverse_proxy.Common.Int.{ℤ}
use caddy_reverse_proxy.Text.{Text}
use caddy_reverse_proxy.Persistence.{Fault}

pub data Kind : Type 0 where
  listener pool rule route : Kind

pub data Error : Type 0 where
  -- validate
  host_required upstream_required path_without_slash path_wildcard : Error
  upstream_incomplete upstream_scheme : Text → Error
  -- validateRouteSecurity, validateIPRanges
  negative_body_limit : Error
  invalid_method invalid_denied_prefix invalid_range : Text → Error
  -- validateRouteHost
  host_not_dns host_not_qualified host_invalid : Text → Error
  -- validateListener, validateBackendPool, validateRoutingRuleLocked
  name_required id_required : Kind → Error
  listener_protocol listener_port no_targets target_port backend_port backend_protocol : Error
  invalid_address duplicated_target : Text → Error
  invalid_path_prefix : Error
  path_exists : Text → Text → Error
  -- the operations on resources
  not_found id_exists name_exists : Kind → Text → Error
  endpoint_exists : Text → Error
  used_by : Kind → Text → Text → Error
  missing_resources : Text → Error
  compile_failed : Text → Error → Error
  invalid_resource : Kind → Text → Error → Error
  -- the compatibility routes
  route_exists : Text → Text → Error
  upstream_invalid upstream_port : Text → Error
  mixed_schemes : Error
  not_compiled : Text → Error
  -- the store
  unsupported_version : ℤ → Error
  stale_revision invalid_applied : Error
  invalid_applied_resources : Error → Error
  migrate_failed : Text → Error → Error
  save_failed : Fault → Error
  save_migrated : Error → Error
  read_failed malformed : Error
