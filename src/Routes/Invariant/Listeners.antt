-- ===== src/Routes/Invariant/Listeners.antt =====
-- The listener operations keep listeners valid and apart.
use caddy_reverse_proxy.Common.{
  ℕ, ◌≡◌, sym, subst, any, ◌≢◌, ◌↔◌, Bool, true, false, List, [], ◌∷◌, ◌++◌, ok, arith, All,
  Distinct,
}
use caddy_reverse_proxy.Common.Int.{InRange-of_tests, eq_ℤ_iff}
use caddy_reverse_proxy.Text.{Text, codes, ◌==◌}
use caddy_reverse_proxy.Common.Lists.Laws.{
  All-append_one, Distinct-append_one, Replaced, Deleted, All-Replaced, Distinct-Replaced,
  All-Deleted, Distinct-Deleted,
}
use caddy_reverse_proxy.Text.Laws.{==_iff}
use caddy_reverse_proxy.Model.{Listener}
use caddy_reverse_proxy.Routes.Listeners.{
  validate_listener, same_listener, check_new_listener, check_replaced_listener, listener_url,
  normalize_listeners, normalize_listener, complete_listener, add_listener_locked, listener_has_id,
}
use caddy_reverse_proxy.Routes.Normalize.{id_or_next}
use caddy_reverse_proxy.Routes.Invariant.{IsListener, SameEndpoint, ListenersApart}

pub validate_listener-IsListener :
    (l : Listener) → l.id ≢ [] → validate_listener l ≡ ok tt → IsListener l
unfolding validate_listener
validate_listener-IsListener l id h = record {
  id = id;
  name = ground (arith, ==_iff l.name []);
  hostname = ground arith;
  protocol = ground (arith, ==_iff l.protocol (codes "http"), ==_iff l.protocol (codes "https"));
  port = InRange-of_tests 1 l.port 65535 (ground arith) (ground arith);
}

pub same_listener_iff : (a b : Listener) → (same_listener a b ≡ true) ↔ SameEndpoint a b
unfolding same_listener
same_listener_iff a b =
    ground
      (arith, ==_iff a.hostname b.hostname, ==_iff a.protocol b.protocol, eq_ℤ_iff a.port b.port)

pub check_new_listener-Apart :
    (l : Listener) (listeners : List Listener)
    → check_new_listener l listeners ≡ ok tt
    → All (λ e. ListenersApart e l) listeners
unfolding check_new_listener
check_new_listener-Apart l [] h = tt
check_new_listener-Apart l (e ∷ es) h = (
  (ground (arith, ==_iff e.id l.id), ground (arith, same_listener_iff e l)),
  check_new_listener-Apart l es (ground arith),
)

pub check_replaced_listener-Apart :
    (l : Listener) (listeners : List Listener)
    → check_replaced_listener l listeners ≡ ok tt
    → All (λ e. e.id == l.id ≡ false → ListenersApart e l) listeners
unfolding check_replaced_listener
check_replaced_listener-Apart l [] h = tt
check_replaced_listener-Apart l (e ∷ es) h = (
  λ other. (ground (arith, ==_iff e.id l.id), ground (arith, same_listener_iff e l)),
  check_replaced_listener-Apart l es (ground arith),
)

unfoldable pub AreListeners : List Listener → Type 0
AreListeners ls = All IsListener ls × Distinct ListenersApart ls

pub id_or_next-ne-nil :
    (id : Text) (c : ℕ) (prefix : Text) (now : ℕ) → id_or_next id (c ∷ prefix) now ≢ []
unfolding id_or_next
id_or_next-ne-nil id c prefix now = ground (arith, ==_iff id [])

AreListeners-append :
    (l : Listener) (ls : List Listener)
    → AreListeners ls
    → IsListener l
    → All (λ e. ListenersApart e l) ls
    → AreListeners (ls ++ l ∷ [])
unfolding AreListeners
AreListeners-append l ls (valid, apart) is new =
    (All-append_one IsListener ls valid is, Distinct-append_one ListenersApart ls l apart new)

pub IsListener-updated :
    (l : Listener) (n : ℕ) → IsListener l → IsListener (record l { last_updated = n })
IsListener-updated l n h = record {
  id = h.id;
  name = h.name;
  hostname = h.hostname;
  protocol = h.protocol;
  port = h.port;
}

complete_listener-id : (now : ℕ → ℕ) (raw : Listener) → (complete_listener now raw).id ≢ []
unfolding complete_listener
complete_listener-id now raw = id_or_next-ne-nil _ _ _ _

-- The new list is the old one with the created listener behind it.
pub add_listener_locked-AreListeners :
    (now : ℕ → ℕ) (raw : Listener) (ls : List Listener) {c : Listener} {ls' : List Listener}
    → add_listener_locked now raw ls ≡ ok (c, ls')
    → AreListeners ls
    → AreListeners ls' × (ls' ≡ ls ++ c ∷ [])
unfolding add_listener_locked
add_listener_locked-AreListeners now raw ls {c} {ls'} h valid =
    let l = complete_listener now raw in
    let u = record l { last_updated = now 2 } in
    let grown : AreListeners (ls ++ u ∷ []) =
      AreListeners-append u ls valid
        (IsListener-updated l (now 2)
          (validate_listener-IsListener l (complete_listener-id now raw) (ground arith)))
        (check_new_listener-Apart l ls (ground arith)) in
    let list : ls' ≡ ls ++ u ∷ [] = ground arith in
    let created : c ≡ u = ground arith in (rw list grown, rw (list, created))

ListenersApart-single :
    (id : Text) (x y : Listener)
    → ListenersApart x y
    → listener_has_id id x ≡ true
    → listener_has_id id y ≡ false
ListenersApart-single id x y apart h = ground (arith, ==_iff x.id id, ==_iff y.id id)

ListenersApart-symm : (x y : Listener) → ListenersApart x y → ListenersApart y x
ListenersApart-symm x y (ids, ends) =
    (λ e. ids (sym e), λ (host, port, protocol). ends (sym host, sym port, sym protocol))

pub AreListeners-Replaced :
    (l : Listener) {ls ls' : List Listener}
    → Replaced (listener_has_id l.id) l ls ls'
    → AreListeners ls
    → IsListener l
    → All (λ e. e.id == l.id ≡ false → ListenersApart e l) ls
    → AreListeners ls'
unfolding AreListeners
AreListeners-Replaced l r (valid, apart) is others = (
  All-Replaced IsListener _ l r valid is,
  Distinct-Replaced ListenersApart _ l (ListenersApart-single l.id) ListenersApart-symm r apart
      others,
)

pub AreListeners-Deleted :
    (p : Listener → Bool) {ls ls' : List Listener}
    → Deleted p ls ls'
    → AreListeners ls
    → AreListeners ls'
unfolding AreListeners
AreListeners-Deleted p r (valid, apart) =
    (All-Deleted IsListener p r valid, Distinct-Deleted ListenersApart p r apart)

-- What the listener pass has found of the listeners before the index.
unseen_listener :
    (l : Listener) (done : List Listener)
    → any (listener_has_id l.id) done ≡ false
    → any (λ old. listener_url old == listener_url l) done ≡ false
    → All (λ e. ListenersApart e l) done
unfolding any listener_url
unseen_listener l [] h k = tt
unseen_listener l (e ∷ es) h k = (
  (
    ground (arith, ==_iff e.id l.id),
    λ (host, port, protocol). absurd_url (rw (host, port, protocol) at (url_test k)),
  ),
  unseen_listener l es (ground arith) (ground arith),
)
  where
    url_test :
        any (λ old. listener_url old == listener_url l) (e ∷ es) ≡ false
        → listener_url e == listener_url l ≡ false
    url_test q = ground arith

    absurd_url : listener_url l == listener_url l ≡ false → ⊥
    absurd_url q = ground (arith, ==_iff (listener_url l) (listener_url l))

-- The listeners that pass normalizeResourcesLocked are valid and apart.
pub normalize_listeners-AreListeners :
    (done rest : List Listener) {ls : List Listener}
    → normalize_listeners done rest ≡ ok ls
    → AreListeners done
    → AreListeners ls
unfolding normalize_listeners
normalize_listeners-AreListeners done [] h valid = subst AreListeners (ground arith) valid
normalize_listeners-AreListeners done (raw ∷ rest) h valid =
    let l = normalize_listener raw in
    let checked : validate_listener l ≡ ok tt = ground arith in
    let id : l.id ≢ [] = ground (arith, ==_iff l.id []) in
    normalize_listeners-AreListeners (done ++ l ∷ []) rest (ground arith) (
      AreListeners-append l done valid (validate_listener-IsListener l id checked)
        (unseen_listener l done (ground arith) (ground arith)))
