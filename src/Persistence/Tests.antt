-- ===== src/Persistence/Tests.antt =====
-- Runs of the atomic write.
use caddy_reverse_proxy.Common.{ℕ, ◌≡◌, ◌⊎◌, refl, none, some, ok, err}
use caddy_reverse_proxy.Persistence.{Fault, rename, Disk, write_json}
use caddy_reverse_proxy.Persistence.Laws.{write_json_atomic}

abbrev old_disk : Disk ℕ
old_disk = record { target = some 1; temporary = none }

write_json_atomic_example :
    (((write_json (some rename) 2 old_disk).0 ≡ ok tt)
        × ((write_json (some rename) 2 old_disk).1.target ≡ some 2)
      ⊎ ((f : Fault) × (some rename ≡ some f)
          × ((write_json (some rename) 2 old_disk).0 ≡ err f)
          × ((write_json (some rename) 2 old_disk).1.target ≡ some 1)))
    × ((write_json (some rename) 2 old_disk).1.temporary ≡ none)
write_json_atomic_example = write_json_atomic (some rename) 2 old_disk refl
