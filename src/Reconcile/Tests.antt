-- ===== src/Reconcile/Tests.antt =====
-- Syncs of a small gateway with the generated configuration as its output.
use caddy_reverse_proxy.Common.{
  ◌≡◌, refl, true, false, none, some, List, [], ◌∷◌, ◌++◌, Result, ok, err, Distinct, any, find,
}
use caddy_reverse_proxy.Text.{
  Text, codes, ◌==◌, has_prefix, to_lower, lower, trim, trim_left, trim_right, trim_space,
  trim_suffix_dot, contains, drop, itoa, atoi,
}
use caddy_reverse_proxy.Text.Order.{at_most}
use caddy_reverse_proxy.Text.HostPort.{
  equal_fold, trim_suffix, cut, split_host_port, join_host_port,
}
use caddy_reverse_proxy.Model.Config.{AppConfig, between_0_and_1}
use caddy_reverse_proxy.Routes.Normalize.{normalize_path_prefix}
use caddy_reverse_proxy.Caddy.{Error}
use caddy_reverse_proxy.Caddy.Matchers.{
  intersect_trimmed, intersect_path_prefixes, restricted_path_matchers, restrict_from,
  route_path_matchers, route_match, append_unique, append_new,
}
use caddy_reverse_proxy.Caddy.Policies.{
  auth_tokens, nonblank, token_policies, protected_header_policies, unique_header_names,
  unique_header_names_from, header_name_in,
}
use caddy_reverse_proxy.Caddy.Handlers.{
  assign, set_headers, reverse_proxy_handler, append_fields, route_log_handlers, proxy_handlers,
}
use caddy_reverse_proxy.Caddy.Entries.{
  render_route, guarded_match, render_upstreams, upstream_dial, render_security_entries,
  security_entries, reject_any, security_rejection, access_entries, protected_entries, proxy_entry,
  fallback_entry,
}
use caddy_reverse_proxy.Caddy.Servers.{
  wildcard_certificate_covers_host, subject_covers, ensure_server, conflicts, add_server,
  update_server, listener_addresses_overlap, listener_address, admin_listen_from_endpoint,
  loopback_target,
}
use caddy_reverse_proxy.Caddy.Tls.{
  tls_automation, certificate_issuer, renewal_window, acme_directory, azure_dns_provider,
}
use caddy_reverse_proxy.Caddy.Render.{
  CaddyConfig, render, with_management, management_route, ensure_default, place_routes, place_route,
  append_redirects, append_entries, skip_covered, skip_certificate, route_redirects, redirect_entry,
  route_address, route_protocol,
}
use caddy_reverse_proxy.Caddy.Render.Order.{sort_routes, insert_route, less}
use caddy_reverse_proxy.Common.{arith}
use caddy_reverse_proxy.Model.{ReconcileResult}
use caddy_reverse_proxy.Routes.Store.{World, new_store, desired_snapshot, pending}
use caddy_reverse_proxy.Reconcile.{
  Services, Answers, Commit, Request, Reconciler, new_result, update_config, finish,
}
use caddy_reverse_proxy.Reconcile.Sync.{
  Phase, finished, checking, next_generation, read_previous, after_reading, load_prepared,
  after_render, after_load, after_commit, commit_of, commit_applied, fail_sync, sync,
}
use caddy_reverse_proxy.Reconcile.Prepare.{prepare, snapshot_of, discover}
use caddy_reverse_proxy.Reconcile.Restore.{load, restore_runtime, rollback_output, update_for}
use caddy_reverse_proxy.Reconcile.Checks.{CheckAnswers, check}
use caddy_reverse_proxy.Reconcile.Run.{plain_request, applied_request, sync_alone}
use caddy_reverse_proxy.Reconcile.Rollback.{sync-finished_restores}
use caddy_reverse_proxy.Reconcile.Applied.{sync_alone-applied}
use caddy_reverse_proxy.Reconcile.Preserved.{sync-applied_only}
use caddy_reverse_proxy.Reconcile.System.{Event, start, configure, steps}
use caddy_reverse_proxy.Reconcile.System.Laws.{steps-stale}
use caddy_reverse_proxy.Caddy.Samples.{one_host, shop, api, small_config}

abbrev text_result : Result Error CaddyConfig → Result Text CaddyConfig
text_result (ok config) = ok config
text_result (err e) = err (codes "not rendered")

abbrev small_services : Services CaddyConfig
small_services = record {
  render = λ cfg routes. text_result (render one_host cfg routes);
  is_config_updater = true;
  is_certificate_updater = true;
  describe = λ e. codes "not saved";
}

abbrev old_output : CaddyConfig
old_output = record {
  admin_listen = [];
  storage_root = [];
  servers = [];
  http_port = none;
  tls = none;
}

abbrev kind_answers : Answers CaddyConfig
kind_answers = record {
  started = 5;
  reads = some (ok (some old_output));
  load = record { error = none; taken = true };
  reload = record { error = none; taken = true };
  discover = some (ok (api ∷ []));
  call = record { now = λ k. k; fault = none; unreadable = false };
  failed = 9;
}

abbrev quiet_checks : CheckAnswers
quiet_checks = record { check = none; azure = none; cancelled = false; finished = 7 }

abbrev small_world : World
small_world = record {
  store = record (new_store []) { revision = 1; routes = shop ∷ [] };
  disk = record { target = none; temporary = none };
}

abbrev small_state : Reconciler CaddyConfig
small_state = record {
  cfg = small_config;
  renderer_cfg = small_config;
  world = small_world;
  last_discovered = [];
  generation = 3;
  last = unfold new_result in new_result 0 [] 0;
  runtime = some old_output;
}

abbrev new_config : AppConfig
new_config = record small_config { routes_file = codes "/data/routes.json" }

abbrev full_disk : Commit
full_disk snapshot w = (err (codes "no space left"), w)

abbrev failing_request : Request
failing_request = record {
  preserve_pending_routes = false;
  candidate = some new_config;
  commit = some full_disk;
}

abbrev result_of : Phase → ReconcileResult
result_of (finished result) = result
result_of (checking p) = p.result

abbrev small_output : CaddyConfig
small_output = elim (render one_host small_config (shop ∷ api ∷ [])) [
  | ok config ↦ config
  | err e ↦ old_output
]

abbrev failed_result : ReconcileResult
failed_result = result_of (sync small_services kind_answers failing_request small_state).0

-- The commit fails, and so does the sync.
commit_fails :
    (sync small_services kind_answers failing_request small_state).0 ≡ finished failed_result
unfolding render with_management management_route ensure_default ensure_server conflicts add_server
    update_server listener_addresses_overlap listener_address admin_listen_from_endpoint
    loopback_target place_routes place_route append_redirects append_entries skip_covered
    skip_certificate route_redirects redirect_entry route_address route_protocol sort_routes
    insert_route less render_route guarded_match render_upstreams upstream_dial
    render_security_entries security_entries reject_any security_rejection access_entries
    protected_entries proxy_entry fallback_entry assign set_headers reverse_proxy_handler
    append_fields route_log_handlers proxy_handlers auth_tokens nonblank token_policies
    protected_header_policies unique_header_names unique_header_names_from header_name_in
    append_unique append_new restricted_path_matchers restrict_from route_path_matchers route_match
    intersect_path_prefixes intersect_trimmed normalize_path_prefix trim_space trim trim_left
    trim_right contains any find has_prefix ◌==◌ to_lower lower trim_suffix_dot drop itoa atoi
    at_most equal_fold trim_suffix cut split_host_port join_host_port
    wildcard_certificate_covers_host subject_covers tls_automation certificate_issuer renewal_window
    acme_directory azure_dns_provider between_0_and_1 sync next_generation read_previous
    after_reading load_prepared prepare snapshot_of discover new_result update_config after_render
    after_load load after_commit commit_of commit_applied fail_sync restore_runtime rollback_output
    update_for finish desired_snapshot
commit_fails = refl

sync-finished_restores_example :
    let r' = (sync small_services kind_answers failing_request small_state).1 in
    (r'.cfg ≡ small_config) × (r'.renderer_cfg ≡ small_config) × (r'.runtime ≡ some old_output)
sync-finished_restores_example =
    sync-finished_restores small_services kind_answers false new_config (some full_disk) small_state
      old_output (ok (some old_output)) failed_result refl refl refl refl (λ found e. cc) refl
      commit_fails

renders_small :
    small_services.render small_state.renderer_cfg (
      (desired_snapshot small_world.store).routes ++ (discover kind_answers.discover small_state).0)
    ≡ ok small_output
unfolding render with_management management_route ensure_default ensure_server conflicts add_server
    update_server listener_addresses_overlap listener_address admin_listen_from_endpoint
    loopback_target place_routes place_route append_redirects append_entries skip_covered
    skip_certificate route_redirects redirect_entry route_address route_protocol sort_routes
    insert_route less render_route guarded_match render_upstreams upstream_dial
    render_security_entries security_entries reject_any security_rejection access_entries
    protected_entries proxy_entry fallback_entry assign set_headers reverse_proxy_handler
    append_fields route_log_handlers proxy_handlers auth_tokens nonblank token_policies
    protected_header_policies unique_header_names unique_header_names_from header_name_in
    append_unique append_new restricted_path_matchers restrict_from route_path_matchers route_match
    intersect_path_prefixes intersect_trimmed normalize_path_prefix trim_space trim trim_left
    trim_right contains any find has_prefix ◌==◌ to_lower lower trim_suffix_dot drop itoa atoi
    at_most equal_fold trim_suffix cut split_host_port join_host_port
    wildcard_certificate_covers_host subject_covers tls_automation certificate_issuer renewal_window
    acme_directory azure_dns_provider between_0_and_1 discover desired_snapshot
renders_small = refl

sync_alone-applied_example :
    let o = sync_alone small_services kind_answers quiet_checks plain_request small_state in
    (o.0.caddy_loaded ≡ true)
    × (o.1.runtime ≡ some small_output)
    × (o.1.world.store.applied ≡ desired_snapshot small_world.store)
    × (pending o.1.world.store ≡ false)
unfolding new_store
sync_alone-applied_example =
    sync_alone-applied small_services kind_answers quiet_checks small_state small_output
      renders_small refl refl refl (omega arith)

abbrev other_world : World
other_world = record small_world { store = record (new_store []) { revision = 4; routes = [] } }

sync-applied_only_example :
    let o = sync small_services kind_answers applied_request small_state in
    let o' =
      sync small_services kind_answers applied_request
        (record small_state { world = other_world }) in
    (o.0 ≡ o'.0) × (o.1.runtime ≡ o'.1.runtime) × (o.1.world ≡ small_world)
unfolding new_store
sync-applied_only_example =
    sync-applied_only small_services kind_answers small_state other_world refl

abbrev two_starts : List (Event CaddyConfig)
two_starts =
    start kind_answers plain_request
    ∷ start kind_answers applied_request
    ∷ configure new_config
    ∷ []

steps-stale_example :
    let s =
      steps one_host small_services two_starts
        (record { reconciler = small_state; pending = [] }) in
    Distinct (λ newer older. (check quiet_checks older s.reconciler).1 ≡ s.reconciler) s.pending
steps-stale_example =
    steps-stale one_host small_services two_starts small_state quiet_checks (omega arith)
