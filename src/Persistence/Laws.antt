-- ===== src/Persistence/Laws.antt =====
-- WriteJSON replaces the file whole or not at all.
use caddy_reverse_proxy.Common.{◌≡◌, ◌⊎◌, inl, inr, Option, none, some, refl, ok, err, arith}
use caddy_reverse_proxy.Persistence.{
  Fault, marshal, mkdir, create, write, sync, close, rename, Disk, write_json,
}

module _ {A : Type 0} where
  -- On a disk without a temporary file, whatever step fails, the target holds the new value if the
  -- call succeeds and what it held before if the call fails, the error is that of the step, and no
  -- temporary file is left over.
  pub write_json_atomic :
      (fault : Option Fault) (value : A) (d : Disk A)
      → d.temporary ≡ none
      → (((write_json fault value d).0 ≡ ok tt) × ((write_json fault value d).1.target ≡ some value)
          ⊎ ((f : Fault) × (fault ≡ some f)
              × ((write_json fault value d).0 ≡ err f)
              × ((write_json fault value d).1.target ≡ d.target)))
        × ((write_json fault value d).1.temporary ≡ none)
  unfolding write_json
  write_json_atomic none value d h = (inl (refl, refl), refl)
  write_json_atomic (some marshal) value d h = (inr (marshal, refl, refl, refl), h)
  write_json_atomic (some mkdir) value d h = (inr (mkdir, refl, refl, refl), h)
  write_json_atomic (some create) value d h = (inr (create, refl, refl, refl), h)
  write_json_atomic (some write) value d h = (inr (write, refl, refl, refl), refl)
  write_json_atomic (some sync) value d h = (inr (sync, refl, refl, refl), refl)
  write_json_atomic (some close) value d h = (inr (close, refl, refl, refl), refl)
  write_json_atomic (some rename) value d h = (inr (rename, refl, refl, refl), refl)

  pub write_json-ok :
      (fault : Option Fault) (value : A) (d : Disk A)
      → (write_json fault value d).0 ≡ ok tt
      → (write_json fault value d).1.target ≡ some value
  unfolding write_json
  write_json-ok fault value d h = ground arith

  pub write_json-err :
      (fault : Option Fault) (value : A) (d : Disk A) {f : Fault}
      → (write_json fault value d).0 ≡ err f
      → (write_json fault value d).1.target ≡ d.target
  unfolding write_json
  write_json-err fault value d h = ground arith
