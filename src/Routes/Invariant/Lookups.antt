-- ===== src/Routes/Invariant/Lookups.antt =====
-- A rule that finds its listener and its pool still finds them after a change of the lists.
use caddy_reverse_proxy.Common.{
  ◌≡◌, Bool, true, false, List, [], ◌∷◌, ◌++◌, ok, arith, Option, none, some, All, is_some,
}
use caddy_reverse_proxy.Text.{Text, ◌==◌}
use caddy_reverse_proxy.Common.Lists.Laws.{
  Replaced, Deleted, is_some-find-append, is_some-find-Replaced, is_some-find-Deleted,
}
use caddy_reverse_proxy.Text.Laws.{==_iff}
use caddy_reverse_proxy.Model.{Listener, BackendPool, RoutingRule}
use caddy_reverse_proxy.Routes.Errors.{Error}
use caddy_reverse_proxy.Routes.Listeners.{find_listener, listener_has_id}
use caddy_reverse_proxy.Routes.Pools.{find_backend_pool, pool_has_id}
use caddy_reverse_proxy.Routes.Operations.{or_not_found, check_unused}

pub every_rule {κ} :
    {P : RoutingRule → Type κ} (rs : List RoutingRule) → ((r : RoutingRule) → P r) → All P rs
every_rule [] f = tt
every_rule (r ∷ rs) f = (f r, every_rule rs f)

pub or_not_found-eq-ok {ℓ} :
    {A : Type ℓ} (e : Error) (o : Option A) {a : A} → or_not_found e o ≡ ok a → o ≡ some a
unfolding or_not_found
or_not_found-eq-ok e none h = cc
or_not_found-eq-ok e (some a) h = cc

module _ (id : Text) where
  abbrev pub FindsListener : List Listener → List Listener → Type 0
  FindsListener ls ls' =
      is_some (find_listener ls id) ≡ true → is_some (find_listener ls' id) ≡ true

  abbrev pub FindsPool : List BackendPool → List BackendPool → Type 0
  FindsPool ps ps' =
      is_some (find_backend_pool ps id) ≡ true → is_some (find_backend_pool ps' id) ≡ true

  pub FindsListener-append : (ls more : List Listener) → FindsListener ls (ls ++ more)
  unfolding find_listener
  FindsListener-append ls more = is_some-find-append (listener_has_id id) ls more

  pub FindsPool-append : (ps more : List BackendPool) → FindsPool ps (ps ++ more)
  unfolding find_backend_pool
  FindsPool-append ps more = is_some-find-append (pool_has_id id) ps more

  pub FindsListener-Replaced :
      (u : Listener) {ls ls' : List Listener}
      → Replaced (listener_has_id u.id) u ls ls'
      → FindsListener ls ls'
  unfolding find_listener
  FindsListener-Replaced u r =
      is_some-find-Replaced (listener_has_id id) (listener_has_id u.id) u r
        λ x p q. ground (arith, ==_iff x.id u.id, ==_iff x.id id, ==_iff u.id id)

  pub FindsPool-Replaced :
      (u : BackendPool) {ps ps' : List BackendPool}
      → Replaced (pool_has_id u.id) u ps ps'
      → FindsPool ps ps'
  unfolding find_backend_pool
  FindsPool-Replaced u r =
      is_some-find-Replaced (pool_has_id id) (pool_has_id u.id) u r
        λ x p q. ground (arith, ==_iff x.id u.id, ==_iff x.id id, ==_iff u.id id)

  pub FindsListener-Deleted :
      (gone : Text) {ls ls' : List Listener}
      → Deleted (listener_has_id gone) ls ls'
      → id == gone ≡ false
      → FindsListener ls ls'
  unfolding find_listener
  FindsListener-Deleted gone r other =
      is_some-find-Deleted (listener_has_id id) (listener_has_id gone) r
        λ x p. ground (arith, ==_iff x.id gone, ==_iff x.id id, ==_iff id gone)

  pub FindsPool-Deleted :
      (gone : Text) {ps ps' : List BackendPool}
      → Deleted (pool_has_id gone) ps ps'
      → id == gone ≡ false
      → FindsPool ps ps'
  unfolding find_backend_pool
  FindsPool-Deleted gone r other =
      is_some-find-Deleted (pool_has_id id) (pool_has_id gone) r
        λ x p. ground (arith, ==_iff x.id gone, ==_iff x.id id, ==_iff id gone)

pub check_unused-All :
    (uses : RoutingRule → Bool) (used : Text → Error) (rs : List RoutingRule)
    → check_unused uses used rs ≡ ok tt
    → All (λ r. uses r ≡ false) rs
unfolding check_unused
check_unused-All uses used [] h = tt
check_unused-All uses used (r ∷ rs) h = (ground arith, check_unused-All uses used rs (ground arith))
