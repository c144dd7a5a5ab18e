-- ===== src/Caddy/Render/Placing.antt =====
-- The loop of Render over the routes: its servers do not collide, and the default http listener is
-- there when there are redirects.
use caddy_reverse_proxy.Common.{
  ◌≡◌, ◌≢◌, refl, sym, subst, ◌∙◌, ◌⊎◌, inl, inr, Bool, true, false, not, ◌&&◌, List, [], ◌∷◌, ◌++◌,
  Result, ok, fail_if, >>=-eq-ok, >>-eq-ok, if◌then◌else◌, arith, Bool-cases, Distinct, is_empty,
  ok-injective,
}
use caddy_reverse_proxy.Text.{Text, codes, ◌==◌}
use caddy_reverse_proxy.Text.Laws.{==_iff}
use caddy_reverse_proxy.Model.{RouteConfig}
use caddy_reverse_proxy.Model.Config.{AppConfig, GatewayConfig}
use caddy_reverse_proxy.Routes.Std.{Std}
use caddy_reverse_proxy.Caddy.{Entry, Server, Error, no_default_listener}
use caddy_reverse_proxy.Caddy.Servers.{ensure_server, update_server}
use caddy_reverse_proxy.Caddy.Entries.{render_route}
use caddy_reverse_proxy.Caddy.Render.{
  Progress, route_address, route_protocol, route_redirects, skip_covered, append_entries,
  ensure_default, place_route, place_routes, append_redirects,
}
use caddy_reverse_proxy.Caddy.Render.Listeners.{
  listeners, Harmonious, Listens, append_entries-listeners, skip_covered-listeners, Listens-any,
  ensure_server-IsEnsured,
}

pub if_true :
    {A : Type 0} {x z : A} (y : A) {b : Bool} → b ≡ true → (if b then x else y) ≡ z → x ≡ z
if_true y e h = rw e at h

pub if_false :
    {A : Type 0} {y z : A} (x : A) {b : Bool} → b ≡ false → (if b then x else y) ≡ z → y ≡ z
if_false x e h = rw e at h

-- No collision among the servers, and a server at the default http listener for the redirects.
pub record IsPlaced (http_listen : Text) (p : Progress) : Type 0 where
  pub distinct : Distinct Harmonious (listeners p.servers)
  pub default : http_listen ≢ [] → Listens http_listen (listeners p.servers)
  pub needed : is_empty p.redirects ≡ false → http_listen ≢ []

redirects-needed :
    (cfg : GatewayConfig) (route : RouteConfig) (address : Text) {more : List Entry}
    → route_redirects cfg route address ≡ ok more
    → is_empty more ≡ false
    → cfg.http_listen ≢ []
unfolding route_redirects
redirects-needed cfg route address h k e =
    elim (Bool-cases (route_protocol route == codes "https" && not (cfg.http_listen == []))) [
      | inl both ↦ ground (arith, ==_iff cfg.http_listen [])
      | inr off ↦
          let none : ◌≡◌ {A = List Entry} [] _ = ok-injective (rw off at h) in
          let wrong : true ≡ false =
            subst (λ (es : List Entry). is_empty es ≡ false) (sym none) k in
          cc
    ]

append-is_empty :
    (xs ys : List Entry)
    → is_empty (xs ++ ys) ≡ false
    → (is_empty xs ≡ false) ⊎ (is_empty ys ≡ false)
append-is_empty [] ys h = inr h
append-is_empty (x ∷ xs) ys h = inl refl

module _ (std : Std) (cfg : AppConfig) where
  -- The steps of a turn that succeeds.
  pub place_route-ok :
      (route : RouteConfig) (p : Progress) {next : Progress}
      → place_route std cfg route p ≡ ok next
      → (servers : List Server) × (entries : List Entry) × (redirects : List Entry) × (ensure_server
            (route_address cfg.gateway route)
            (route_protocol route)
            p.servers
          ≡ ok servers)
        × (render_route std route cfg.auth cfg.security cfg.gateway.internal_source_ranges
            ≡ ok entries)
        × (route_redirects cfg.gateway route (route_address cfg.gateway route) ≡ ok redirects)
        × (record {
          servers = update_server (append_entries entries) (route_address cfg.gateway route) (
              skip_covered cfg.gateway.certificate route (route_address cfg.gateway route) servers);
          redirects = p.redirects ++ redirects;
        }
            ≡ next)
  unfolding place_route
  place_route-ok route p h =
      let address = route_address cfg.gateway route in
      let h1 =
        (>>-eq-ok (fail_if (address == []) (no_default_listener route.id (route_protocol route))) _
          h).1 in
      let (servers, ensured, h2) =
        >>=-eq-ok (ensure_server address (route_protocol route) p.servers) _ h1 in
      let (entries, rendered, h3) =
        >>=-eq-ok (render_route std route cfg.auth cfg.security cfg.gateway.internal_source_ranges)
          _ h2 in
      let (redirects, redirected, h4) =
        >>=-eq-ok (route_redirects cfg.gateway route address) _ h3 in
      (servers, entries, redirects, ensured, rendered, redirected, ok-injective h4)

  place_route-IsPlaced :
      (route : RouteConfig) (p : Progress) {next : Progress}
      → place_route std cfg route p ≡ ok next
      → IsPlaced cfg.gateway.http_listen p
      → IsPlaced cfg.gateway.http_listen next
  place_route-IsPlaced route p h placed =
      let (servers, entries, redirects, ensured, rendered, redirected, same) =
        place_route-ok route p h in
      let address = route_address cfg.gateway route in
      let facts = ensure_server-IsEnsured address (route_protocol route) p.servers ensured in
      let kept = sym (
        append_entries-listeners entries address
          (skip_covered cfg.gateway.certificate route address servers)
        ∙ skip_covered-listeners cfg.gateway.certificate route address servers) in
      subst (IsPlaced cfg.gateway.http_listen) same (record {
        distinct = subst (Distinct Harmonious) kept (facts.distinct placed.distinct);
        default = λ filled.
            subst (Listens cfg.gateway.http_listen) kept
              (facts.keeps cfg.gateway.http_listen (placed.default filled));
        needed = λ some_redirect. elim (append-is_empty p.redirects redirects some_redirect) [
          | inl old ↦ placed.needed old
          | inr new ↦ redirects-needed cfg.gateway route address redirected new
        ];
      })

  unfoldable pub turn : RouteConfig → Progress → Result Error Progress
  turn route p = if route.enabled then place_route std cfg route p else ok p

  pub turn-IsPlaced :
      (route : RouteConfig) (p : Progress) {next : Progress}
      → turn route p ≡ ok next
      → IsPlaced cfg.gateway.http_listen p
      → IsPlaced cfg.gateway.http_listen next
  unfolding turn
  turn-IsPlaced route p h placed = elim (Bool-cases route.enabled) [
    | inl e ↦ place_route-IsPlaced route p (if_true _ e h) placed
    | inr e ↦ subst (IsPlaced cfg.gateway.http_listen) (ok-injective (if_false _ e h)) placed
  ]

  pub place_routes-IsPlaced :
      (routes : List RouteConfig) (p : Progress) {next : Progress}
      → place_routes std cfg routes p ≡ ok next
      → IsPlaced cfg.gateway.http_listen p
      → IsPlaced cfg.gateway.http_listen next
  unfolding place_routes turn
  place_routes-IsPlaced [] p h placed =
      subst (IsPlaced cfg.gateway.http_listen) (ok-injective h) placed
  place_routes-IsPlaced (route ∷ routes) p h placed =
      let (next, turned, rest) = >>=-eq-ok (turn route p) _ h in
      place_routes-IsPlaced routes next rest (turn-IsPlaced route p turned placed)

-- What a default listener that is ensured leaves of the listeners.
record IsDefaulted (address : Text) (servers added : List Server) : Type 0 where
  distinct : Distinct Harmonious (listeners servers) → Distinct Harmonious (listeners added)
  listens : address ≢ [] → Listens address (listeners added)
  keeps : (other : Text) → Listens other (listeners servers) → Listens other (listeners added)

ensure_default-IsDefaulted :
    (address protocol : Text) (servers : List Server) {added : List Server}
    → ensure_default address protocol servers ≡ ok added
    → IsDefaulted address servers added
unfolding ensure_default
ensure_default-IsDefaulted address protocol servers h = elim (Bool-cases (address == [])) [
  | inl e ↦ subst (IsDefaulted address servers) (ok-injective (if_true _ e h)) (record {
    distinct = λ d. d;
    listens = λ filled. absurd (filled ((==_iff address []).0 e));
    keeps = λ other m. m;
  })
  | inr e ↦
      let facts = ensure_server-IsEnsured address protocol servers (if_false _ e h) in
      record { distinct = facts.distinct; listens = λ _. facts.listens; keeps = facts.keeps }
]

pub first_progress-IsPlaced :
    (cfg : GatewayConfig) {first servers : List Server}
    → ensure_default cfg.http_listen (codes "http") [] ≡ ok first
    → ensure_default cfg.https_listen (codes "https") first ≡ ok servers
    → IsPlaced cfg.http_listen (record { servers = servers; redirects = [] })
first_progress-IsPlaced cfg {first} h k =
    let http = ensure_default-IsDefaulted cfg.http_listen (codes "http") [] h in
    let https = ensure_default-IsDefaulted cfg.https_listen (codes "https") first k in
    record {
      distinct = https.distinct (http.distinct tt);
      default = λ filled. https.keeps cfg.http_listen (http.listens filled);
      needed = λ e. cc;
    }

pub append_redirects-ok :
    (http_listen : Text) (p : Progress)
    → IsPlaced http_listen p
    → append_redirects http_listen p
      ≡ ok (
          if is_empty p.redirects
          then p.servers
          else update_server (append_entries p.redirects) http_listen p.servers)
unfolding append_redirects
append_redirects-ok http_listen p placed = elim (Bool-cases (is_empty p.redirects)) [
  | inl e ↦ rw e refl
  | inr e ↦ rw (e, Listens-any http_listen p.servers (placed.default (placed.needed e))) refl
]
