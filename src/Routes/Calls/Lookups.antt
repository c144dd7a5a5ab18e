-- ===== src/Routes/Calls/Lookups.antt =====
-- What a listener that was added or deleted answers to a lookup afterwards.
use caddy_reverse_proxy.Common.{
  ℕ, ◌≡◌, ◌≢◌, refl, sym, ap, subst, ◌∙◌, Bool, true, false, none, some, List, [], ◌∷◌, ◌++◌,
  Result, ok, err, arith, All, Distinct, find, is_some, if◌then◌else◌,
}
use caddy_reverse_proxy.Common.Lists.Laws.{Deleted, here, there, delete_first-Deleted, All-mono}
use caddy_reverse_proxy.Text.{Text, ◌==◌}
use caddy_reverse_proxy.Text.Laws.{==_iff, ==_refl}
use caddy_reverse_proxy.Model.{Listener, RouteConfig}
use caddy_reverse_proxy.Routes.Errors.{Error}
use caddy_reverse_proxy.Routes.Std.{Std, Call}
use caddy_reverse_proxy.Routes.Listeners.{
  listener_has_id, find_listener, complete_listener, add_listener_locked,
}
use caddy_reverse_proxy.Routes.Rules.{references_listener}
use caddy_reverse_proxy.Routes.Store.{
  Store, StoreSnapshot, World, Outcome, snapshot_locked, set_store, save_locked,
}
use caddy_reverse_proxy.Routes.Commit.{
  or_restore, returning, commit_rebuilt, commit_locked, commit_change, rebuild_store, next_revision,
}
use caddy_reverse_proxy.Routes.Operations.{
  add_listener_change, add_listener, delete_listener_change, delete_listener,
}
use caddy_reverse_proxy.Routes.Invariant.{IsWellFormed, ListenersApart}
use caddy_reverse_proxy.Routes.Invariant.Commit.{save_locked-store}
use caddy_reverse_proxy.Routes.Invariant.Listeners.{check_new_listener-Apart}
use caddy_reverse_proxy.Routes.Invariant.Deletions.{delete_listener_change-eq-ok}

abbrev SameLists : Store → Store → Type 0
SameLists s s' =
    (s'.listeners ≡ s.listeners)
    × (s'.backend_pools ≡ s.backend_pools)
    × (s'.routing_rules ≡ s.routing_rules)

record IsCommitOf {A : Type 0} (s : Store) (o : Outcome A) : Type 0 where
  at : (a : A) → o.0 ≡ ok a → SameLists s o.1.store

IsCommitOf-if :
    {A : Type 0} (s : Store) (b : Bool) (x y : Outcome A)
    → IsCommitOf s x
    → IsCommitOf s y
    → IsCommitOf s (if b then x else y)
IsCommitOf-if s true x y h k = h
IsCommitOf-if s false x y h k = k

or_restore-IsCommitOf :
    {A : Type 0} (s : Store) (snapshot : StoreSnapshot) (o : Outcome A)
    → SameLists s o.1.store
    → IsCommitOf s (or_restore snapshot o)
unfolding or_restore
or_restore-IsCommitOf s snapshot (ok a, w) h = record { at = λ _ _. h }
or_restore-IsCommitOf s snapshot (err e, w) h = record { at = λ a failed. cc }

commit_rebuilt-IsCommitOf :
    (call : Call) (snapshot : StoreSnapshot) (r : Result Error (List RouteConfig)) (w : World)
    → IsCommitOf w.store (commit_rebuilt call snapshot r w)
unfolding commit_rebuilt
commit_rebuilt-IsCommitOf call snapshot (err e) w = record { at = λ a failed. cc }
commit_rebuilt-IsCommitOf call snapshot (ok routes) w =
    let s = record w.store { routes = routes; revision = next_revision w.store.revision } in
    IsCommitOf-if w.store s.staged _ _ (record { at = λ _ _. (refl, refl, refl) })
      (or_restore-IsCommitOf w.store snapshot (save_locked call (set_store w s))
        (rw save_locked-store (refl, refl, refl)))

returning-eq-ok :
    {A B : Type 0} (b : B) (o : Outcome A) {c : B}
    → (returning b o).0 ≡ ok c
    → (b ≡ c) × (a : A) × (o.0 ≡ ok a) × ((returning b o).1 ≡ o.1)
unfolding returning
returning-eq-ok b (ok a, w) h = (cc, a, refl, refl)
returning-eq-ok b (err e, w) h = cc

module _ (std : Std) where
  commit_change-eq-ok :
      {A : Type 0} (call : Call) (w : World) (r : Result Error (A × Store)) {a : A}
      → (commit_change std call w r).0 ≡ ok a
      → (s : Store) × (r ≡ ok (a, s)) × SameLists s (commit_change std call w r).1.store
  unfolding commit_change commit_locked
  commit_change-eq-ok call w (err e) h = cc
  commit_change-eq-ok call w (ok (b, s)) h =
      let o = commit_rebuilt call (snapshot_locked w.store) (rebuild_store std s) (set_store w s) in
      let (same, u, done, world) = returning-eq-ok b o h in
      (
        s,
        ap (λ c. ok (c, s)) same,
        subst (λ v. SameLists s v.store) (sym world)
            ((commit_rebuilt-IsCommitOf call (snapshot_locked w.store) (rebuild_store std s)
                (set_store w s)).at
              u done),
      )

  find-append_one :
      {A : Type 0} (p : A → Bool) (xs : List A) (c : A)
      → All (λ x. p x ≡ false) xs
      → p c ≡ true
      → find p (xs ++ c ∷ []) ≡ some c
  unfolding find
  find-append_one p [] c h k = rw k refl
  find-append_one p (x ∷ xs) c (other, h) k = rw other (find-append_one p xs c h k)

  add_listener_change-find :
      (now : ℕ → ℕ) (raw : Listener) (s : Store) {c : Listener} {s' : Store}
      → add_listener_change now raw s ≡ ok (c, s')
      → find_listener s'.listeners c.id ≡ some c
  unfolding add_listener_change add_listener_locked find_listener
  add_listener_change-find now raw s {c} {s'} h =
      let l = complete_listener now raw in
      let u = record l { last_updated = now 2 } in
      let apart = check_new_listener-Apart l s.listeners (ground arith) in
      let created : c ≡ u = ground arith in
      let list : s'.listeners ≡ s.listeners ++ u ∷ [] = ground arith in
      rw (list, created)
        (find-append_one (listener_has_id u.id) s.listeners u
          (All-mono _ _ (λ e k. ground (arith, ==_iff e.id u.id)) s.listeners apart) (==_refl u.id))

  -- A lookup of the ID of a listener that AddListener has added answers the listener that it has
  -- returned.
  pub add_listener-find :
      (call : Call) (raw : Listener) (w : World) {c : Listener}
      → (add_listener std call raw w).0 ≡ ok c
      → find_listener (add_listener std call raw w).1.store.listeners c.id ≡ some c
  unfolding add_listener
  add_listener-find call raw w {c} h =
      let (s, changed, same) =
        commit_change-eq-ok call w (add_listener_change call.now raw w.store) h in
      subst (λ ls. find_listener ls c.id ≡ some c) (sym same.0)
        (add_listener_change-find call.now raw w.store changed)

  find-eq-none :
      (id : Text) (ls : List Listener) → All (λ l. l.id ≢ id) ls → find_listener ls id ≡ none
  unfolding find_listener find
  find-eq-none id [] h = refl
  find-eq-none id (l ∷ ls) (other, h) =
      let miss : l.id == id ≡ false = ground (arith, ==_iff l.id id) in
      rw miss (find-eq-none id ls h)

  Deleted-find :
      (id : Text) {ls ls' : List Listener}
      → Deleted (listener_has_id id) ls ls'
      → Distinct ListenersApart ls
      → find_listener ls' id ≡ none
  unfolding find_listener find
  Deleted-find id (here {x} {xs} hit) (apart, h) =
      find-eq-none id xs (All-mono _ _ (λ l k e. k.0 ((==_iff x.id id).0 hit ∙ sym e)) xs apart)
  Deleted-find id (there miss r) (apart, h) = rw miss (Deleted-find id r h)

  Deleted-found :
      (id : Text) {ls ls' : List Listener}
      → Deleted (listener_has_id id) ls ls'
      → is_some (find_listener ls id) ≡ true
  unfolding find_listener find
  Deleted-found id (here hit) = rw hit
  Deleted-found id (there miss r) = rw miss (Deleted-found id r)

  -- DeleteListener on a well-formed store succeeds only for a listener that is there and that no
  -- routing rule uses; afterwards a lookup of its ID finds nothing, and the pools and the rules are
  -- as they were.
  pub delete_listener-find :
      (call : Call) (id : Text) (w : World)
      → IsWellFormed std w.store
      → (delete_listener std call id w).0 ≡ ok tt
      → (is_some (find_listener w.store.listeners id) ≡ true)
        × All (λ r. r.listener_id ≢ id) w.store.routing_rules
        × (find_listener (delete_listener std call id w).1.store.listeners id ≡ none)
        × ((delete_listener std call id w).1.store.backend_pools ≡ w.store.backend_pools)
        × ((delete_listener std call id w).1.store.routing_rules ≡ w.store.routing_rules)
  unfolding delete_listener references_listener
  delete_listener-find call id w good h =
      let (s, changed, (lists, pools, rules)) =
        commit_change-eq-ok call w (delete_listener_change id w.store) h in
      let (ls', found, same, unused) = delete_listener_change-eq-ok std id w.store changed in
      let gone = delete_first-Deleted (listener_has_id id) w.store.listeners found in
      (
        Deleted-found id gone,
        All-mono _ _ (λ r k. ground (arith, ==_iff r.listener_id id)) w.store.routing_rules unused,
        rw (lists, sym same) (Deleted-find id gone good.resources.listeners_apart),
        pools ∙ ap (λ (x : Store). x.backend_pools) (sym same),
        rules ∙ ap (λ (x : Store). x.routing_rules) (sym same),
      )
