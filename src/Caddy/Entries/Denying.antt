-- ===== src/Caddy/Entries/Denying.antt =====
-- A request that is denied is taken by the matcher of a rejection.
use caddy_reverse_proxy.Common.{
  ◌≡◌, ◌≢◌, refl, subst, ◌⊎◌, inl, inr, Bool, true, some, List, [], ◌∷◌, arith, Bool-cases, Any,
  Option, none,
}
use caddy_reverse_proxy.Common.Int.{gt_ℤ}
use caddy_reverse_proxy.Text.{Text, ◌==◌}
use caddy_reverse_proxy.Text.Laws.{==_iff}
use caddy_reverse_proxy.Caddy.Matchers.Laws.{
  IsPlain, IsPathMatcher, matchers-Below, restrict_from-takes, append_unique-Any,
}
use caddy_reverse_proxy.Model.{RouteConfig}
use caddy_reverse_proxy.Model.Config.{SecurityConfig}
use caddy_reverse_proxy.Caddy.{Matcher}
use caddy_reverse_proxy.Caddy.Matchers.{
  append_unique, trim_prefix, route_path_matchers, route_match, restricted_path_matchers,
}
use caddy_reverse_proxy.Caddy.Entries.Requests.{
  Request, Passes, AnyOf, NoneOf, IsAccepted, IsOnRoute, IsDenied,
}

-- What takes the request among the matchers of the rejections.
abbrev pub Hits : (Matcher → Bool) → List Text → (List Text → Matcher) → Type 0
Hits matches values matcher = (values ≢ []) × (matches (matcher values) ≡ true)

abbrev pub from_ranges : RouteConfig → List Text → Matcher
from_ranges route ranges = record (route_match route) { remote_ip = some ranges }

abbrev pub outside_ranges : RouteConfig → List Text → Matcher
outside_ranges route ranges = record (route_match route) { not_remote_ip = some ranges }

abbrev pub by_methods : RouteConfig → List Text → Matcher
by_methods route methods = record (route_match route) { method = some methods }

abbrev pub on_paths : RouteConfig → List Text → Matcher
on_paths route paths = record (route_match route) { path = some paths }

abbrev pub all_blocked : RouteConfig → SecurityConfig → List Text
all_blocked route security = append_unique security.blocked_cidrs route.security.blocked_cidrs

abbrev pub all_methods : RouteConfig → SecurityConfig → List Text
all_methods route security =
    append_unique security.denied_methods route.security.additional_denied_methods

abbrev pub all_paths : RouteConfig → SecurityConfig → List Text
all_paths route security =
    restricted_path_matchers route.path_prefix
      (append_unique security.denied_path_prefixes route.security.additional_denied_path_prefixes)

abbrev pub IsRejected : RouteConfig → SecurityConfig → (Matcher → Bool) → Type 0
IsRejected route security matches =
    Hits matches (all_blocked route security) (from_ranges route)
    ⊎ (Hits matches security.allowed_cidrs (outside_ranges route)
        ⊎ (Hits matches route.security.allowed_cidrs (outside_ranges route)
            ⊎ (Hits matches (all_methods route security) (by_methods route)
                ⊎ Hits matches (all_paths route security) (on_paths route))))

Any-ne-nil : (P : Text → Type 0) (values : List Text) → Any P values → values ≢ []
Any-ne-nil P [] h = absurd h
Any-ne-nil P (value ∷ values) h = λ e. cc

module _ (request : Request) (rest : Text) (route : RouteConfig)
    (paths : IsPathMatcher (b'/' ∷ rest) request.path) (plain : IsPlain route.path_prefix)
    (asked : IsOnRoute request (b'/' ∷ rest) route) where
  route_match-IsAccepted : IsAccepted request (route_match route)
  unfolding route_match
  route_match-IsAccepted = record {
    host = inl asked.host;
    expression = elim (Bool-cases (gt_ℤ route.listener_port 0)) [
      | inl e ↦ rw e (asked.port e)
      | inr e ↦ rw e tt
    ];
    protocol = elim (Bool-cases (route.listener_protocol == [])) [
      | inl e ↦ rw e tt
      | inr e ↦ rw e (asked.protocol (ground (arith, ==_iff route.listener_protocol [])))
    ];
    path = elim (Bool-cases (route.path_prefix == [])) [
      | inl e ↦ rw e tt
      | inr e ↦ rw e (
          let same : route_path_matchers (trim_prefix route.path_prefix)
              ≡ route_path_matchers route.path_prefix =
            unfold route_path_matchers in rw plain.1 refl in
          subst (AnyOf request.path) same (
            (matchers-Below rest request.path paths route.path_prefix
                (trim_prefix route.path_prefix) plain refl).1
              asked.path))
    ];
    remote_ip = tt;
    not_remote_ip = tt;
    method = tt;
    header = tt;
  }

  changed-IsAccepted :
      (path range outside method : Option (List Text))
      → Passes (AnyOf request.path) path
      → Passes (AnyOf request.range) range
      → Passes (NoneOf request.range) outside
      → Passes (AnyOf request.method) method
      → IsAccepted request (record (route_match route) {
        path = path;
        remote_ip = range;
        not_remote_ip = outside;
        method = method;
      })
  unfolding route_match
  changed-IsAccepted path range outside method p r o m =
      let base = route_match-IsAccepted in
      record {
        host = base.host;
        expression = base.expression;
        protocol = base.protocol;
        path = p;
        remote_ip = r;
        not_remote_ip = o;
        method = m;
        header = tt;
      }

  module _ (matches : Matcher → Bool)
      (caddy : (m : Matcher) → IsAccepted request m → matches m ≡ true) where
    blocked-Hits :
        (ranges : List Text) → AnyOf request.range ranges → Hits matches ranges (from_ranges route)
    unfolding route_match
    blocked-Hits ranges h = (
      Any-ne-nil _ ranges h,
      caddy (from_ranges route ranges) (
          changed-IsAccepted (route_match route).path (some ranges) none none
            route_match-IsAccepted.path h tt tt),
    )

    outside-Hits :
        (ranges : List Text)
        → ranges ≢ []
        → NoneOf request.range ranges
        → Hits matches ranges (outside_ranges route)
    unfolding route_match
    outside-Hits ranges h k = (
      h,
      caddy (outside_ranges route ranges) (
          changed-IsAccepted (route_match route).path none (some ranges) none
            route_match-IsAccepted.path tt k tt),
    )

    method-Hits :
        (methods : List Text)
        → AnyOf request.method methods
        → Hits matches methods (by_methods route)
    unfolding route_match
    method-Hits methods h = (
      Any-ne-nil _ methods h,
      caddy (by_methods route methods) (
          changed-IsAccepted (route_match route).path none none (some methods)
            route_match-IsAccepted.path tt tt h),
    )

    path-Hits :
        (patterns : List Text)
        → AnyOf request.path patterns
        → Hits matches patterns (on_paths route)
    unfolding route_match
    path-Hits patterns h = (
      Any-ne-nil _ patterns h,
      caddy (on_paths route patterns)
          (changed-IsAccepted (some patterns) none none none h tt tt tt),
    )

    pub IsDenied-IsRejected :
        (security : SecurityConfig)
        → IsDenied request (b'/' ∷ rest) route security
        → IsRejected route security matches
    unfolding restricted_path_matchers
    IsDenied-IsRejected security (inl h) =
        inl (blocked-Hits (all_blocked route security) ((append_unique-Any _ _ _).1 h))
    IsDenied-IsRejected security (inr (inl (h, k))) =
        inr (inl (outside-Hits security.allowed_cidrs h k))
    IsDenied-IsRejected security (inr (inr (inl (h, k)))) =
        inr (inr (inl (outside-Hits route.security.allowed_cidrs h k)))
    IsDenied-IsRejected security (inr (inr (inr (inl h)))) =
        inr (
          inr
            (inr (inl (method-Hits (all_methods route security) ((append_unique-Any _ _ _).1 h)))))
    IsDenied-IsRejected security (inr (inr (inr (inr (q, same, below, denied))))) =
        let taken =
          restrict_from-takes rest request.path paths route.path_prefix q []
            (append_unique security.denied_path_prefixes
              route.security.additional_denied_path_prefixes)
            plain same below ((append_unique-Any _ _ _).1 denied) in
        inr (inr (inr (inr (path-Hits (all_paths route security) taken))))
