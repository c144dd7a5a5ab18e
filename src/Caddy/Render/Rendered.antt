-- ===== src/Caddy/Render/Rendered.antt =====
-- The steps of a Render that succeeds, and the servers that it leaves.
use caddy_reverse_proxy.Common.{
  ◌≡◌, ◌≢◌, ◌⊎◌, ◌∷◌, true, some, arith, sym, ap, subst, ◌∙◌, inl, inr, false, List, [], ok,
  fail_if, >>=-eq-ok, >>-eq-ok, fail_if-eq-ok, if◌then◌else◌, Bool-cases, Distinct, is_empty,
  ok-injective,
}
use caddy_reverse_proxy.Common.Lists.Laws.{All-mono}
use caddy_reverse_proxy.Text.{Text, codes}
use caddy_reverse_proxy.Text.Laws.{==_iff}
use caddy_reverse_proxy.Text.HostPort.{split_host_port}
use caddy_reverse_proxy.Model.{RouteConfig}
use caddy_reverse_proxy.Model.Config.{AppConfig}
use caddy_reverse_proxy.Routes.Std.{Std}
use caddy_reverse_proxy.Caddy.{Server, no_listener}
use caddy_reverse_proxy.Caddy.Servers.{update_server, is_any_host, listener_addresses_overlap}
use caddy_reverse_proxy.Caddy.Render.{
  CaddyConfig, Progress, append_entries, with_management, ensure_default, place_routes,
  append_redirects, render,
}
use caddy_reverse_proxy.Caddy.Render.Order.{sort_routes}
use caddy_reverse_proxy.Caddy.Render.Listeners.{listeners, Harmonious, append_entries-listeners}
use caddy_reverse_proxy.Caddy.Render.Placing.{
  place_routes-IsPlaced, first_progress-IsPlaced, append_redirects-ok,
}

-- The steps of a Render that succeeds.
pub record IsRendered (std : Std) (cfg : AppConfig) (routes : List RouteConfig)
    (config : CaddyConfig) : Type 0 where
  pub first : List Server
  pub second : List Server
  pub progress : Progress
  pub http : ensure_default cfg.gateway.http_listen (codes "http") [] ≡ ok first
  pub https : ensure_default cfg.gateway.https_listen (codes "https") first ≡ ok second
  pub placed :
      place_routes std cfg (sort_routes routes) (record { servers = second; redirects = [] })
      ≡ ok progress
  pub servers : config.servers ≡ (
      if is_empty progress.redirects
      then progress.servers
      else update_server
          (append_entries progress.redirects)
          cfg.gateway.http_listen
          progress.servers)
  pub filled : is_empty config.servers ≡ false

pub render-IsRendered :
    (std : Std) (cfg : AppConfig) (input routes : List RouteConfig) {config : CaddyConfig}
    → with_management cfg input ≡ ok routes
    → render std cfg input ≡ ok config
    → IsRendered std cfg routes config
unfolding render
render-IsRendered std cfg input routes managed h =
    let h1 = rw managed at h in
    let (first, http, h2) =
      >>=-eq-ok (ensure_default cfg.gateway.http_listen (codes "http") []) _ h1 in
    let (second, https, h3) =
      >>=-eq-ok (ensure_default cfg.gateway.https_listen (codes "https") first) _ h2 in
    let (progress, placed, h4) =
      >>=-eq-ok
        (place_routes std cfg (sort_routes routes) (record { servers = second; redirects = [] })) _
        h3 in
    let (all, added, h5) = >>=-eq-ok (append_redirects cfg.gateway.http_listen progress) _ h4 in
    let (checked, h6) = >>-eq-ok (fail_if (is_empty all) no_listener) _ h5 in
    let same = ap (λ (c : CaddyConfig). c.servers) (sym (ok-injective h6)) in
    let fine = append_redirects-ok cfg.gateway.http_listen progress (
      place_routes-IsPlaced std cfg (sort_routes routes) _ placed
        (first_progress-IsPlaced cfg.gateway http https)) in
    record {
      first = first;
      second = second;
      progress = progress;
      http = http;
      https = https;
      placed = placed;
      servers = same ∙ sym (ok-injective (sym fine ∙ added));
      filled = rw same (fail_if-eq-ok (is_empty all) no_listener checked);
    }

with_management-ok :
    (std : Std) (cfg : AppConfig) (input : List RouteConfig) {config : CaddyConfig}
    → render std cfg input ≡ ok config
    → (routes : List RouteConfig) × (with_management cfg input ≡ ok routes)
unfolding render
with_management-ok std cfg input h =
    let (routes, managed, rest) = >>=-eq-ok (with_management cfg input) _ h in (routes, managed)

rendered-Harmonious :
    (std : Std) (cfg : AppConfig) (routes : List RouteConfig) (config : CaddyConfig)
    → IsRendered std cfg routes config
    → Distinct Harmonious (listeners config.servers)
rendered-Harmonious std cfg routes config r =
    let distinct =
      (place_routes-IsPlaced std cfg (sort_routes routes) _ r.placed
        (first_progress-IsPlaced cfg.gateway r.http r.https)).distinct in
    let final = λ (servers : List Server). Distinct Harmonious (listeners servers) in
    subst final (sym r.servers) (elim (Bool-cases (is_empty r.progress.redirects)) [
      | inl e ↦ rw e distinct
      | inr e ↦ rw e (
          subst (Distinct Harmonious)
            (sym (
              append_entries-listeners r.progress.redirects cfg.gateway.http_listen
                r.progress.servers))
            distinct)
    ])

-- A host that stands for all addresses of the machine.
abbrev pub IsAnyHost : Text → Type 0
IsAnyHost host = (host ≡ []) ⊎ (host ≡ codes "0.0.0.0") ⊎ (host ≡ codes "::")

-- Two addresses that can be split have one port, and one host or a host that stands for all.
abbrev pub Overlaps : Text → Text → Type 0
Overlaps left right =
    (a : Text) × (b : Text) × (port : Text) × (split_host_port left ≡ some (a, port))
    × (split_host_port right ≡ some (b, port))
    × ((a ≡ b) ⊎ IsAnyHost a ⊎ IsAnyHost b)

-- Two listeners have different addresses, and one protocol if their addresses overlap.
abbrev pub Compatible : Text × Text → Text × Text → Type 0
Compatible left right = (left.0 ≢ right.0) × (Overlaps left.0 right.0 → left.1 ≡ right.1)

IsAnyHost-is_any_host : (host : Text) → IsAnyHost host → is_any_host host ≡ true
IsAnyHost-is_any_host host h =
    ground (arith, ==_iff host [], ==_iff host (codes "0.0.0.0"), ==_iff host (codes "::"))

Overlaps-listener_addresses_overlap :
    (left right : Text) → Overlaps left right → listener_addresses_overlap left right ≡ true
unfolding listener_addresses_overlap
Overlaps-listener_addresses_overlap left right (a, b, port, l, r, hosts) =
    rw (l, r)
      (ground
        (arith, ==_iff port port, ==_iff a b, IsAnyHost-is_any_host a, IsAnyHost-is_any_host b))

Distinct-mono : (ls : List (Text × Text)) → Distinct Harmonious ls → Distinct Compatible ls
Distinct-mono [] h = tt
Distinct-mono (l ∷ ls) (h, hs) = (All-mono _ _ compatible ls h, Distinct-mono ls hs)
  where
    compatible : (r : Text × Text) → Harmonious l r → Compatible l r
    compatible r (apart, same) =
        (apart, λ over. same (Overlaps-listener_addresses_overlap l.0 r.0 over))

-- The servers of a configuration that Render gives do not collide: there is at least one, any two
-- listen at different addresses, and if their addresses have the same port and a host that is the
-- same or stands for all, which is "", "0.0.0.0" or "::", they speak one protocol.
pub render-Compatible :
    (std : Std) (cfg : AppConfig) (input : List RouteConfig) (config : CaddyConfig)
    → render std cfg input ≡ ok config
    → (is_empty config.servers ≡ false) × Distinct Compatible (listeners config.servers)
render-Compatible std cfg input config h =
    let (routes, managed) = with_management-ok std cfg input h in
    let r = render-IsRendered std cfg input routes managed h in
    (r.filled, Distinct-mono _ (rendered-Harmonious std cfg routes config r))
