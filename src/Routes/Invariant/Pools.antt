-- ===== src/Routes/Invariant/Pools.antt =====
-- The pool operations keep pools valid and apart.
use caddy_reverse_proxy.Common.{
  ℕ, ◌≡◌, sym, subst, any, ◌≢◌, Bool, true, false, List, [], ◌∷◌, ◌++◌, ok, arith, All, Distinct,
  is_empty,
}
use caddy_reverse_proxy.Common.Int.{InRange-of_tests}
use caddy_reverse_proxy.Text.{Text, ◌==◌, to_lower}
use caddy_reverse_proxy.Common.Lists.Laws.{
  All-append_one, Distinct-append_one, Replaced, Deleted, All-Replaced, Distinct-Replaced,
  All-Deleted, Distinct-Deleted,
}
use caddy_reverse_proxy.Text.Laws.{==_iff, ==_refl}
use caddy_reverse_proxy.Model.{BackendTarget, BackendPool}
use caddy_reverse_proxy.Routes.Std.{Std}
use caddy_reverse_proxy.Routes.Pools.{
  target_key, validate_targets, validate_backend_pool, check_new_pool, check_replaced_pool,
  pool_has_id, complete_pool, add_backend_pool_locked, normalize_pools, normalize_backend_pool,
  equal_fold,
}
use caddy_reverse_proxy.Routes.Invariant.{IsTarget, IsPool, PoolsApart, KeysApart}
use caddy_reverse_proxy.Routes.Invariant.Listeners.{id_or_next-ne-nil}

any-eq-false-All :
    (key : Text) (seen : List Text) → any (λ k. k == key) seen ≡ false → All (λ k. k ≢ key) seen
unfolding any
any-eq-false-All key [] h = tt
any-eq-false-All key (k ∷ seen) h =
    (ground (arith, ==_iff k key), any-eq-false-All key seen (ground arith))

module _ (std : Std) where
  validate_targets-All :
      (seen : List Text) (targets : List BackendTarget)
      → validate_targets std seen targets ≡ ok tt
      → All (IsTarget std) targets
  unfolding validate_targets
  validate_targets-All seen [] h = tt
  validate_targets-All seen (t ∷ ts) h = (
    (ground arith, InRange-of_tests 0 t.port 65535 (ground arith) (ground arith)),
    validate_targets-All (target_key t ∷ seen) ts (ground arith),
  )

  -- No later target has a key that the loop has seen.
  validate_targets-unseen :
      (key : Text) (seen : List Text) (targets : List BackendTarget)
      → validate_targets std seen targets ≡ ok tt
      → any (λ k. k == key) seen ≡ true
      → All (λ t. key ≢ target_key t) targets
  unfolding validate_targets any
  validate_targets-unseen key seen [] h k = tt
  validate_targets-unseen key seen (t ∷ ts) h k = (
    λ e. ground (arith, subst (λ q. any (λ k. k == q) seen ≡ true) e k),
    validate_targets-unseen key (target_key t ∷ seen) ts (ground arith) (ground arith),
  )

  validate_targets-Distinct :
      (seen : List Text) (targets : List BackendTarget)
      → validate_targets std seen targets ≡ ok tt
      → Distinct KeysApart targets
  unfolding validate_targets any
  validate_targets-Distinct seen [] h = tt
  validate_targets-Distinct seen (t ∷ ts) h = (
    validate_targets-unseen (target_key t) (target_key t ∷ seen) ts (ground arith)
        (ground (arith, ==_refl (target_key t))),
    validate_targets-Distinct (target_key t ∷ seen) ts (ground arith),
  )

  is_empty-ne-nil : (ts : List BackendTarget) → is_empty ts ≡ false → ts ≢ []
  is_empty-ne-nil [] h = cc
  is_empty-ne-nil (t ∷ ts) h = cc

  pub validate_backend_pool-IsPool :
      (p : BackendPool) → p.id ≢ [] → validate_backend_pool std p ≡ ok tt → IsPool std p
  unfolding validate_backend_pool
  validate_backend_pool-IsPool p id h = record {
    id = id;
    name = ground (arith, ==_iff p.name []);
    some_target = is_empty-ne-nil p.targets (ground arith);
    targets = validate_targets-All [] p.targets (ground arith);
    keys = validate_targets-Distinct [] p.targets (ground arith);
  }

pub check_new_pool-Apart :
    (p : BackendPool) (pools : List BackendPool)
    → check_new_pool p pools ≡ ok tt
    → All (λ e. PoolsApart e p) pools
unfolding check_new_pool
check_new_pool-Apart p [] h = tt
check_new_pool-Apart p (e ∷ es) h = (
  (ground (arith, ==_iff e.id p.id), ground (arith, ==_iff (to_lower e.name) (to_lower p.name))),
  check_new_pool-Apart p es (ground arith),
)

pub check_replaced_pool-Apart :
    (p : BackendPool) (pools : List BackendPool)
    → check_replaced_pool p pools ≡ ok tt
    → All (λ e. e.id == p.id ≡ false → PoolsApart e p) pools
unfolding check_replaced_pool
check_replaced_pool-Apart p [] h = tt
check_replaced_pool-Apart p (e ∷ es) h = (
  λ other. (
    ground (arith, ==_iff e.id p.id),
    ground (arith, ==_iff (to_lower e.name) (to_lower p.name)),
  ),
  check_replaced_pool-Apart p es (ground arith),
)

unseen_pool :
    (p : BackendPool) (done : List BackendPool)
    → any (pool_has_id p.id) done ≡ false
    → any (λ old. equal_fold old.name p.name) done ≡ false
    → All (λ e. PoolsApart e p) done
unfolding any
unseen_pool p [] h k = tt
unseen_pool p (e ∷ es) h k = (
  (ground (arith, ==_iff e.id p.id), ground (arith, ==_iff (to_lower e.name) (to_lower p.name))),
  unseen_pool p es (ground arith) (ground arith),
)

PoolsApart-single :
    (id : Text) (x y : BackendPool)
    → PoolsApart x y
    → pool_has_id id x ≡ true
    → pool_has_id id y ≡ false
PoolsApart-single id x y apart h = ground (arith, ==_iff x.id id, ==_iff y.id id)

PoolsApart-symm : (x y : BackendPool) → PoolsApart x y → PoolsApart y x
PoolsApart-symm x y (ids, names) = (λ e. ids (sym e), λ e. names (sym e))

complete_pool-id : (now : ℕ → ℕ) (raw : BackendPool) → (complete_pool now raw).id ≢ []
unfolding complete_pool
complete_pool-id now raw = id_or_next-ne-nil _ _ _ _

module _ (std : Std) where
  unfoldable pub ArePools : List BackendPool → Type 0
  ArePools ps = All (IsPool std) ps × Distinct PoolsApart ps

  ArePools-append :
      (p : BackendPool) (ps : List BackendPool)
      → ArePools ps
      → IsPool std p
      → All (λ e. PoolsApart e p) ps
      → ArePools (ps ++ p ∷ [])
  unfolding ArePools
  ArePools-append p ps (valid, apart) is new =
      (All-append_one (IsPool std) ps valid is, Distinct-append_one PoolsApart ps p apart new)

  pub IsPool-updated :
      (p : BackendPool) (n : ℕ) → IsPool std p → IsPool std (record p { last_updated = n })
  IsPool-updated p n h = record {
    id = h.id;
    name = h.name;
    some_target = h.some_target;
    targets = h.targets;
    keys = h.keys;
  }

  pub add_backend_pool_locked-ArePools :
      (now : ℕ → ℕ) (raw : BackendPool) (ps : List BackendPool) {c : BackendPool}
      {ps' : List BackendPool}
      → add_backend_pool_locked std now raw ps ≡ ok (c, ps')
      → ArePools ps
      → ArePools ps' × (ps' ≡ ps ++ c ∷ [])
  unfolding add_backend_pool_locked
  add_backend_pool_locked-ArePools now raw ps {c} {ps'} h valid =
      let p = complete_pool now raw in
      let u = record p { last_updated = now 5 } in
      let grown : ArePools (ps ++ u ∷ []) =
        ArePools-append u ps valid
          (IsPool-updated p (now 5)
            (validate_backend_pool-IsPool std p (complete_pool-id now raw) (ground arith)))
          (check_new_pool-Apart p ps (ground arith)) in
      let list : ps' ≡ ps ++ u ∷ [] = ground arith in
      let created : c ≡ u = ground arith in (rw list grown, rw (list, created))

  pub ArePools-Replaced :
      (p : BackendPool) {ps ps' : List BackendPool}
      → Replaced (pool_has_id p.id) p ps ps'
      → ArePools ps
      → IsPool std p
      → All (λ e. e.id == p.id ≡ false → PoolsApart e p) ps
      → ArePools ps'
  unfolding ArePools
  ArePools-Replaced p r (valid, apart) is others = (
    All-Replaced (IsPool std) _ p r valid is,
    Distinct-Replaced PoolsApart _ p (PoolsApart-single p.id) PoolsApart-symm r apart others,
  )

  pub ArePools-Deleted :
      (q : BackendPool → Bool) {ps ps' : List BackendPool}
      → Deleted q ps ps'
      → ArePools ps
      → ArePools ps'
  unfolding ArePools
  ArePools-Deleted q r (valid, apart) =
      (All-Deleted (IsPool std) q r valid, Distinct-Deleted PoolsApart q r apart)

  -- The pools that pass normalizeResourcesLocked are valid and apart.
  pub normalize_pools-ArePools :
      (done rest : List BackendPool) {ps : List BackendPool}
      → normalize_pools std done rest ≡ ok ps
      → ArePools done
      → ArePools ps
  unfolding normalize_pools
  normalize_pools-ArePools done [] h valid = subst ArePools (ground arith) valid
  normalize_pools-ArePools done (raw ∷ rest) h valid =
      let p = normalize_backend_pool raw in
      let checked : validate_backend_pool std p ≡ ok tt = ground arith in
      let id : p.id ≢ [] = ground (arith, ==_iff p.id []) in
      normalize_pools-ArePools (done ++ p ∷ []) rest (ground arith) (
        ArePools-append p done valid (validate_backend_pool-IsPool std p id checked)
          (unseen_pool p done (ground arith) (ground arith)))
