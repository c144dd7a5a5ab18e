-- ===== src/Caddy/Entries/Forwarding.antt =====
-- Who reaches an upstream: what the entries of a route match, and which headers they pass on.
use caddy_reverse_proxy.Common.{
  ℕ, ◌≡◌, subst, inl, inr, Bool, true, false, not, ◌||◌, List, [], ◌∷◌, ◌++◌, ok, ok-injective,
  if◌then◌else◌, arith, Bool-cases, All,
}
use caddy_reverse_proxy.Common.Int.{ℤ, gt_ℤ, lt_ℤ}
use caddy_reverse_proxy.Text.{Text, codes, ◌==◌}
use caddy_reverse_proxy.Model.{RouteConfig}
use caddy_reverse_proxy.Model.Config.{SecurityConfig}
use caddy_reverse_proxy.Caddy.{
  Matcher, ReverseProxy, Handler, log_append, request_body, reverse_proxy, Entry,
}
use caddy_reverse_proxy.Caddy.Policies.Laws.{All-append}
use caddy_reverse_proxy.Caddy.Handlers.{
  append_fields, log_fields, route_log_handlers, proxy_handlers,
}
use caddy_reverse_proxy.Caddy.Entries.{
  reject_any, body_limit, security_rejection, security_entries, render_security_entries,
  proxy_entry,
}

-- `P` holds of the handler if it forwards to upstreams.
abbrev pub OnProxy : (ReverseProxy → Type 0) → Handler → Type 0
OnProxy P (reverse_proxy proxy) = P proxy
OnProxy P _ = Unit

-- Whatever the entry forwards is allowed by `P` of its matcher.
abbrev pub Forwards : (Matcher → ReverseProxy → Type 0) → Entry → Type 0
Forwards P entry = All (OnProxy (P entry.matcher)) entry.handle

append_fields-OnProxy :
    (P : ReverseProxy → Type 0) (fields : List (Text × Text)) (final : List Handler)
    → All (OnProxy P) final
    → All (OnProxy P) (append_fields fields final)
unfolding append_fields
append_fields-OnProxy P [] final h = h
append_fields-OnProxy P ((key, value) ∷ fields) final h = elim (Bool-cases (value == [])) [
  | inl e ↦ rw e (append_fields-OnProxy P fields final h)
  | inr e ↦ rw e (tt, append_fields-OnProxy P fields final h)
]

pub route_log_handlers-OnProxy :
    (P : ReverseProxy → Type 0) (route : RouteConfig) (final : List Handler)
    → All (OnProxy P) final
    → All (OnProxy P) (route_log_handlers route final)
unfolding route_log_handlers
route_log_handlers-OnProxy P route final h = append_fields-OnProxy P (log_fields route) final h

body_handler-OnProxy :
    (P : ReverseProxy → Type 0) (b : Bool) (n : ℤ) (rest : List Handler)
    → All (OnProxy P) rest
    → All (OnProxy P) ((if b then request_body n ∷ [] else []) ++ rest)
body_handler-OnProxy P true n rest h = (tt, h)
body_handler-OnProxy P false n rest h = h

pub proxy_entry-Forwards :
    (P : Matcher → ReverseProxy → Type 0) (route : RouteConfig) (matcher : Matcher) (limit : ℤ)
    (proxy : ReverseProxy)
    → P matcher proxy
    → Forwards P (proxy_entry route matcher limit proxy)
unfolding proxy_entry proxy_handlers
proxy_entry-Forwards P route matcher limit proxy h =
    let steps =
      log_append (codes "upstream_host") (codes "{http.reverse_proxy.upstream.host}")
      ∷ log_append (codes "upstream_duration_ms")
          (codes "{http.reverse_proxy.upstream.duration_ms}")
      ∷ log_append (codes "upstream_latency_ms") (codes "{http.reverse_proxy.upstream.latency_ms}")
      ∷ reverse_proxy proxy
      ∷ [] in
    All-append (OnProxy (P matcher)) (route_log_handlers route []) _
      (route_log_handlers-OnProxy (P matcher) route [] tt)
      (body_handler-OnProxy (P matcher) (gt_ℤ limit 0) limit steps (tt, (tt, (tt, (h, tt)))))

security_rejection-Forwards :
    (P : Matcher → ReverseProxy → Type 0) (route : RouteConfig) (matcher : Matcher) (status : ℕ)
    → Forwards P (security_rejection route matcher status)
unfolding security_rejection
security_rejection-Forwards P route matcher status =
    route_log_handlers-OnProxy (P matcher) route _ (tt, tt)

-- All that the entries forward is allowed by `P`.
pub record AllForward (P : Matcher → ReverseProxy → Type 0) (entries : List Entry) : Type 0 where
  pub at : All (Forwards P) entries

module _ {P : Matcher → ReverseProxy → Type 0} where
  pub AllForward-append :
      {xs ys : List Entry} → AllForward P xs → AllForward P ys → AllForward P (xs ++ ys)
  AllForward-append h k = record { at = All-append (Forwards P) _ _ h.at k.at }

  pub AllForward-nil : AllForward P []
  AllForward-nil = record { at = tt }

  reject_any-AllForward :
      (route : RouteConfig) (values : List Text) (matcher : List Text → Matcher) (status : ℕ)
      → AllForward P (reject_any route values matcher status)
  unfolding reject_any
  reject_any-AllForward route [] matcher status = AllForward-nil
  reject_any-AllForward route (value ∷ values) matcher status = record {
    at = (security_rejection-Forwards P route _ _, tt);
  }

  pub security_entries-AllForward :
      (route : RouteConfig) (security : SecurityConfig)
      → AllForward P (security_entries route security)
  unfolding security_entries
  security_entries-AllForward route security = search (AllForward-append, reject_any-AllForward)

  pub render_security_entries-AllForward :
      (route : RouteConfig) (security : SecurityConfig) {checked : List Entry × ℤ}
      → render_security_entries route security ≡ ok checked
      → AllForward P checked.0
  unfolding render_security_entries
  render_security_entries-AllForward route security h =
      elim (Bool-cases (not security.enabled || route.security.disabled)) [
        | inl e ↦
            subst (λ (c : List Entry × ℤ). AllForward P c.0) (ok-injective (rw e at h))
              AllForward-nil
        | inr e ↦ elim (Bool-cases (lt_ℤ (body_limit route security) 0)) [
          | inl f ↦ absurd (ground arith)
          | inr f ↦
              subst (λ (c : List Entry × ℤ). AllForward P c.0) (ok-injective (rw f at (rw e at h)))
                (security_entries-AllForward route security)
        ]
      ]
