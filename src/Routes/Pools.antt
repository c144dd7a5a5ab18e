-- ===== src/Routes/Pools.antt =====
-- backend/internal/routes/resources.go: backend pools.
use caddy_reverse_proxy.Common.{
  ℕ, Bool, true, false, not, ◌&&◌, ◌||◌, Option, List, [], ◌∷◌, ◌++◌, map, Result, ok, ◌>>◌,
  fail_if, wrap_err, if◌then◌else◌, find, delete_first, any, is_empty, eqb,
}
use caddy_reverse_proxy.Common.Int.{lt_ℤ, gt_ℤ}
use caddy_reverse_proxy.Text.{
  Text, codes, ◌==◌, to_lower, trim, trim_space, contains, contains_any, split, is_lower, is_upper,
  is_digit, itoa,
}
use caddy_reverse_proxy.Model.{BackendTarget, BackendPool}
use caddy_reverse_proxy.Routes.Errors.{
  Error, pool, name_required, id_required, no_targets, invalid_address, target_port,
  duplicated_target, id_exists, name_exists, invalid_resource,
}
use caddy_reverse_proxy.Routes.Std.{Std}
use caddy_reverse_proxy.Routes.Normalize.{or_default, id_or_next}

abbrev is_bracket : ℕ → Bool
is_bracket c = eqb c b'[' || eqb c b']'

unfoldable pub normalize_target : BackendTarget → BackendTarget
normalize_target target = record target {
  name = trim_space target.name;
  address = trim is_bracket (trim_space target.address);
  health_path = trim_space target.health_path;
}

unfoldable pub normalize_backend_pool : BackendPool → BackendPool
normalize_backend_pool p = record p {
  name = trim_space p.name;
  source = to_lower (trim_space p.source);
  targets = map normalize_target p.targets;
}

-- The loop over the characters of a label of an address.
address_characters : Text → Bool
address_characters [] = true
address_characters (c ∷ s) =
    (is_lower c || is_upper c || is_digit c || eqb c b'-' || eqb c b'_') && address_characters s

address_labels : List Text → Bool
address_labels [] = true
address_labels (label ∷ labels) =
    not (label == []) && address_characters label && address_labels labels

abbrev address_spaces : Text
address_spaces = 32 ∷ b'/' ∷ 9 ∷ 13 ∷ 10 ∷ []

unfoldable pub target_key : BackendTarget → Text
target_key target = to_lower target.address ++ codes ":" ++ itoa target.port

module _ (std : Std) where
  unfoldable pub valid_backend_address : Text → Bool
  unfolding address_labels address_characters
  valid_backend_address address =
      if address == [] || contains_any address_spaces address
      then false
      else if std.parse_ip address
      then true
      else if contains b':' address
      then false
      else address_labels (split b'.' address)

  -- The loop of validateBackendPool; `seen` is its set of keys.
  unfoldable pub validate_targets : List Text → List BackendTarget → Result Error (Unit {0})
  validate_targets seen [] = ok tt
  validate_targets seen (target ∷ targets) = do
    fail_if (not (valid_backend_address target.address)) (invalid_address target.address)
    fail_if (lt_ℤ target.port 0 || gt_ℤ target.port 65535) target_port
    fail_if (any (λ key. key == target_key target) seen) (duplicated_target target.address)
    validate_targets (target_key target ∷ seen) targets

  unfoldable pub validate_backend_pool : BackendPool → Result Error (Unit {0})
  validate_backend_pool p = do
    fail_if (p.name == []) (name_required pool)
    fail_if (is_empty p.targets) no_targets
    validate_targets [] p.targets

-- strings.EqualFold
abbrev pub equal_fold : Text → Text → Bool
equal_fold s t = to_lower s == to_lower t

abbrev pub pool_has_id : Text → BackendPool → Bool
pool_has_id id p = p.id == id

unfoldable pub find_backend_pool : List BackendPool → Text → Option BackendPool
find_backend_pool pools id = find (pool_has_id id) pools

unfoldable pub delete_backend_pool_by_id : List BackendPool → Text → Option (List BackendPool)
delete_backend_pool_by_id pools id = delete_first (pool_has_id id) pools

-- The loop of addBackendPoolLocked over the pools there are.
unfoldable pub check_new_pool : BackendPool → List BackendPool → Result Error (Unit {0})
check_new_pool p [] = ok tt
check_new_pool p (existing ∷ pools) = do
  fail_if (existing.id == p.id) (id_exists pool p.id)
  fail_if (equal_fold existing.name p.name) (name_exists pool p.name)
  check_new_pool p pools

unfoldable pub complete_pool : (ℕ → ℕ) → BackendPool → BackendPool
complete_pool now raw =
    let p = normalize_backend_pool raw in
    record p {
      id = id_or_next p.id (codes "pool") (now 4);
      source = or_default p.source (codes "explicit");
    }

-- The loop of ReplaceBackendPool over the names in use.
unfoldable pub check_replaced_pool : BackendPool → List BackendPool → Result Error (Unit {0})
check_replaced_pool p [] = ok tt
check_replaced_pool p (existing ∷ pools) = do
  fail_if (not (existing.id == p.id) && equal_fold existing.name p.name) (name_exists pool p.name)
  check_replaced_pool p pools

module _ (std : Std) where
  -- s.addBackendPoolLocked
  unfoldable pub add_backend_pool_locked :
      (ℕ → ℕ) → BackendPool → List BackendPool → Result Error (BackendPool × List BackendPool)
  add_backend_pool_locked now raw pools = do
    let p = complete_pool now raw
    validate_backend_pool std p
    check_new_pool p pools
    let created = record p { last_updated = now 5 }
    ok (created, pools ++ created ∷ [])

  -- The pool pass of normalizeResourcesLocked. `done` holds the pools before the index, whose IDs
  -- and folded names are its two sets.
  unfoldable pub normalize_pools :
      List BackendPool → List BackendPool → Result Error (List BackendPool)
  normalize_pools done [] = ok done
  normalize_pools done (raw ∷ rest) = do
    let p = normalize_backend_pool raw
    fail_if (p.id == []) (id_required pool)
    fail_if (any (pool_has_id p.id) done) (id_exists pool p.id)
    fail_if (any (λ old. equal_fold old.name p.name) done) (name_exists pool p.name)
    wrap_err (invalid_resource pool p.id) (validate_backend_pool std p)
    normalize_pools (done ++ p ∷ []) rest
