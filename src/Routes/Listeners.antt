-- ===== src/Routes/Listeners.antt =====
-- backend/internal/routes/resources.go: listeners.
use caddy_reverse_proxy.Common.{
  ℕ, Bool, not, ◌&&◌, ◌||◌, Option, List, [], ◌∷◌, ◌++◌, Result, ok, ◌>>◌, fail_if, wrap_err,
  if◌then◌else◌, find, delete_first, any,
}
use caddy_reverse_proxy.Common.Int.{pos, eq_ℤ, lt_ℤ, gt_ℤ}
use caddy_reverse_proxy.Text.{Text, codes, ◌==◌, to_lower, trim_space}
use caddy_reverse_proxy.Model.{Listener}
use caddy_reverse_proxy.Routes.Errors.{
  Error, listener, name_required, id_required, listener_protocol, listener_port, id_exists,
  endpoint_exists, invalid_resource,
}
use caddy_reverse_proxy.Routes.Validate.{validate_route_host}
use caddy_reverse_proxy.Routes.Normalize.{
  normalize_host, or_default, default_port, host_port, id_or_next,
}

unfoldable pub normalize_listener : Listener → Listener
normalize_listener l =
    let protocol = or_default (to_lower (trim_space l.protocol)) (codes "https") in
    record l {
      name = trim_space l.name;
      hostname = normalize_host l.hostname;
      protocol = protocol;
      source = to_lower (trim_space l.source);
      port = (if eq_ℤ l.port (pos 0) then default_port protocol else l.port);
    }

unfoldable pub validate_listener : Listener → Result Error (Unit {0})
validate_listener l = do
  fail_if (l.name == []) (name_required listener)
  validate_route_host l.hostname
  fail_if (not (l.protocol == codes "http") && not (l.protocol == codes "https")) listener_protocol
  fail_if (lt_ℤ l.port 1 || gt_ℤ l.port 65535) listener_port

unfoldable pub same_listener : Listener → Listener → Bool
same_listener left right =
    left.hostname == right.hostname && eq_ℤ left.port right.port && left.protocol == right.protocol

unfoldable pub listener_url : Listener → Text
listener_url l = l.protocol ++ codes "://" ++ host_port l.hostname l.port

abbrev pub listener_has_id : Text → Listener → Bool
listener_has_id id l = l.id == id

unfoldable pub find_listener : List Listener → Text → Option Listener
find_listener listeners id = find (listener_has_id id) listeners

unfoldable pub delete_listener_by_id : List Listener → Text → Option (List Listener)
delete_listener_by_id listeners id = delete_first (listener_has_id id) listeners

-- s.findMatchingListenerLocked
unfoldable pub find_matching_listener : List Listener → Listener → Option Listener
find_matching_listener listeners candidate = find (λ l. same_listener l candidate) listeners

-- The loop of addListenerLocked over the listeners there are.
unfoldable pub check_new_listener : Listener → List Listener → Result Error (Unit {0})
check_new_listener l [] = ok tt
check_new_listener l (existing ∷ listeners) = do
  fail_if (existing.id == l.id) (id_exists listener l.id)
  fail_if (same_listener existing l) (endpoint_exists (listener_url l))
  check_new_listener l listeners

unfoldable pub complete_listener : (ℕ → ℕ) → Listener → Listener
complete_listener now raw =
    let l = normalize_listener raw in
    record l {
      id = id_or_next l.id (codes "listener") (now 1);
      name = or_default l.name l.hostname;
      source = or_default l.source (codes "explicit");
    }

-- s.addListenerLocked: the listener and the new list; an error leaves the list as it was.
unfoldable pub add_listener_locked :
    (ℕ → ℕ) → Listener → List Listener → Result Error (Listener × List Listener)
add_listener_locked now raw listeners = do
  let l = complete_listener now raw
  validate_listener l
  check_new_listener l listeners
  let created = record l { last_updated = now 2 }
  ok (created, listeners ++ created ∷ [])

-- The first loop of ReplaceListener.
unfoldable pub check_replaced_listener : Listener → List Listener → Result Error (Unit {0})
check_replaced_listener l [] = ok tt
check_replaced_listener l (existing ∷ listeners) = do
  fail_if (not (existing.id == l.id) && same_listener existing l) (endpoint_exists (listener_url l))
  check_replaced_listener l listeners

-- The listener pass of normalizeResourcesLocked. `done` holds the listeners before the index, whose
-- IDs and endpoints are its two sets.
unfoldable pub normalize_listeners : List Listener → List Listener → Result Error (List Listener)
normalize_listeners done [] = ok done
normalize_listeners done (raw ∷ rest) = do
  let l = normalize_listener raw
  fail_if (l.id == []) (id_required listener)
  fail_if (any (listener_has_id l.id) done) (id_exists listener l.id)
  fail_if (any (λ old. listener_url old == listener_url l) done) (endpoint_exists (listener_url l))
  wrap_err (invalid_resource listener l.id) (validate_listener l)
  normalize_listeners (done ++ l ∷ []) rest
