-- ===== src/Caddy/Entries/Combined.antt =====
-- What lists of entries forward that are put together from parts.
use caddy_reverse_proxy.Common.{
  ◌≡◌, refl, Bool, true, false, List, [], ◌∷◌, map, if◌then◌else◌, All,
}
use caddy_reverse_proxy.Model.{RouteConfig}
use caddy_reverse_proxy.Caddy.{Matcher, ReverseProxy, Entry}
use caddy_reverse_proxy.Caddy.Policies.{HeaderPolicy}
use caddy_reverse_proxy.Caddy.Entries.{fallback_entry}
use caddy_reverse_proxy.Caddy.Entries.Forwarding.{
  Forwards, route_log_handlers-OnProxy, AllForward, AllForward-nil,
}

pub AllForward-map :
    (P : Matcher → ReverseProxy → Type 0) (Q : HeaderPolicy → Type 0) (entry : HeaderPolicy → Entry)
    (policies : List HeaderPolicy)
    → ((policy : HeaderPolicy) → Q policy → Forwards P (entry policy))
    → All Q policies
    → AllForward P (map entry policies)
AllForward-map P Q entry [] f h = AllForward-nil
AllForward-map P Q entry (policy ∷ policies) f (h, hs) = record {
  at = (f policy h, (AllForward-map P Q entry policies f hs).at);
}

pub AllForward-if :
    {P : Matcher → ReverseProxy → Type 0} {xs ys : List Entry} (b : Bool)
    → (b ≡ true → AllForward P xs)
    → (b ≡ false → AllForward P ys)
    → AllForward P (if b then xs else ys)
AllForward-if true h k = h refl
AllForward-if false h k = k refl

pub fallback-AllForward :
    (P : Matcher → ReverseProxy → Type 0) (route : RouteConfig) (m : Matcher) (b : Bool)
    → AllForward P (fallback_entry route m b ∷ [])
unfolding fallback_entry
fallback-AllForward P route m true = record {
  at = (route_log_handlers-OnProxy (P m) route _ (tt, tt), tt);
}
fallback-AllForward P route m false = record {
  at = (route_log_handlers-OnProxy (P m) route _ (tt, tt), tt);
}
