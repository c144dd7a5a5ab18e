-- ===== src/Routes/Store.antt =====
-- backend/internal/routes/store.go and resources.go: the store, its file, snapshots and commits. A
-- method runs under the store's mutex from start to end, so it is one step from world to world. In
-- Go the clones keep a caller from writing through shared slices; values here are never shared.
use caddy_reverse_proxy.Common.{
  ℕ, Bool, false, not, Option, some, List, [], map, Result, ok, err, eqb, if◌then◌else◌,
}
use caddy_reverse_proxy.Common.Int.{ℤ, pos}
use caddy_reverse_proxy.Text.{Text, ◌==◌}
use caddy_reverse_proxy.Model.{Listener, BackendPool, RoutingRule, RouteConfig}
use caddy_reverse_proxy.Persistence.{Fault, Disk, write_json}
use caddy_reverse_proxy.Routes.Errors.{Error, save_failed}
use caddy_reverse_proxy.Routes.Std.{Call}

pub record ResourceSet : Type 0 where
  pub version : ℤ
  pub listeners : List Listener
  pub backend_pools : List BackendPool
  pub routing_rules : List RoutingRule

abbrev pub resource_set_version : ℤ
resource_set_version = pos 2

pub record Snapshot : Type 0 where
  pub resources : ResourceSet
  pub routes : List RouteConfig
  pub revision : ℕ

pub record FileFormat : Type 0 where
  pub version : ℤ
  pub revision : ℕ
  pub applied_revision : ℕ
  pub applied : Option ResourceSet
  pub listeners : List Listener
  pub backend_pools : List BackendPool
  pub routing_rules : List RoutingRule
  pub routes : List RouteConfig

-- What a file may hold.
pub data Content : Type 0 where
  malformed : Content
  payload : FileFormat → Content

pub record Store : Type 0 where
  pub path : Text
  pub staged : Bool
  pub revision : ℕ
  pub applied : Snapshot
  pub listeners : List Listener
  pub backend_pools : List BackendPool
  pub routing_rules : List RoutingRule
  pub routes : List RouteConfig

-- storeSnapshot
pub record StoreSnapshot : Type 0 where
  pub staged : Bool
  pub revision : ℕ
  pub applied : Snapshot
  pub listeners : List Listener
  pub backend_pools : List BackendPool
  pub routing_rules : List RoutingRule
  pub routes : List RouteConfig

-- The store and the file at its path.
pub record World : Type 0 where
  pub store : Store
  pub disk : Disk Content

-- An operation that may fail, with the world that it leaves either way.
abbrev pub Outcome : Type 0 → Type 0
Outcome A = Result Error A × World

abbrev pub empty_resources : ResourceSet
empty_resources = record {
  version = resource_set_version;
  listeners = [];
  backend_pools = [];
  routing_rules = [];
}

unfoldable pub new_store : Text → Store
new_store path = record {
  path = path;
  staged = false;
  revision = 0;
  applied = record { resources = empty_resources; routes = []; revision = 0 };
  listeners = [];
  backend_pools = [];
  routing_rules = [];
  routes = [];
}

unfoldable pub desired_snapshot : Store → Snapshot
desired_snapshot s = record {
  resources = record {
    version = resource_set_version;
    listeners = s.listeners;
    backend_pools = s.backend_pools;
    routing_rules = s.routing_rules;
  };
  routes = s.routes;
  revision = s.revision;
}

unfoldable pub pending : Store → Bool
pending s = not (eqb s.revision s.applied.revision)

unfoldable pub clear_error : RoutingRule → RoutingRule
clear_error r = record r { last_error = [] }

-- s.Resources: the export, without runtime errors
unfoldable pub export_resources : Store → ResourceSet
export_resources s = record {
  version = resource_set_version;
  listeners = s.listeners;
  backend_pools = s.backend_pools;
  routing_rules = map clear_error s.routing_rules;
}

unfoldable pub snapshot_locked : Store → StoreSnapshot
snapshot_locked s = record {
  staged = s.staged;
  revision = s.revision;
  applied = s.applied;
  listeners = s.listeners;
  backend_pools = s.backend_pools;
  routing_rules = s.routing_rules;
  routes = s.routes;
}

unfoldable pub restore_locked : StoreSnapshot → Store → Store
restore_locked snapshot s = record s {
  staged = snapshot.staged;
  revision = snapshot.revision;
  applied = snapshot.applied;
  listeners = snapshot.listeners;
  backend_pools = snapshot.backend_pools;
  routing_rules = snapshot.routing_rules;
  routes = snapshot.routes;
}

abbrev pub set_store : World → Store → World
set_store w s = record w { store = s }

-- `LastError` of a rule has the JSON tag "-": it is never written.
unfoldable pub marshal_resources : ResourceSet → ResourceSet
marshal_resources r = record r { routing_rules = map clear_error r.routing_rules }

unfoldable pub file_of_store : Store → FileFormat
unfolding marshal_resources
file_of_store s = record {
  version = pos 3;
  revision = s.revision;
  applied_revision = s.applied.revision;
  applied = some (marshal_resources s.applied.resources);
  listeners = s.listeners;
  backend_pools = s.backend_pools;
  routing_rules = map clear_error s.routing_rules;
  routes = [];
}

abbrev pub with_save_error : Result Fault (Unit {0}) → Result Error (Unit {0})
with_save_error (ok u) = ok u
with_save_error (err fault) = err (save_failed fault)

unfoldable pub write_store : Call → World → Outcome (Unit {0})
write_store call w =
    let (result, disk) = write_json call.fault (payload (file_of_store w.store)) w.disk in
    (with_save_error result, record w { disk = disk })

unfoldable pub save_locked : Call → World → Outcome (Unit {0})
unfolding write_store
save_locked call w = if w.store.path == [] then (ok tt, w) else write_store call w
