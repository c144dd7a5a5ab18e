-- ===== src/Persistence.antt =====
-- backend/internal/persistence/json.go: a file is replaced by writing a temporary file beside it and
-- renaming that. The steps of the operating system may each fail; which one does is an argument.
pub mod Laws
mod Tests
use caddy_reverse_proxy.Common.{Bool, Option, none, some}
use caddy_reverse_proxy.Common.{Result, ok, err}

pub data Fault : Type 0 where
  marshal mkdir create write sync close rename : Fault

-- The target, and the temporary file while there is one: `none` inside it is partial content.
pub record Disk (A : Type 0) : Type 0 where
  pub target : Option A
  pub temporary : Option (Option A)

-- os.Remove of the temporary file, the deferred call.
abbrev remove_temporary : {A : Type 0} → Disk A → Disk A
remove_temporary d = record d { temporary = none }

-- os.Rename
abbrev rename_temporary : {A : Type 0} → A → Disk A → Disk A
rename_temporary value d = record { target = some value; temporary = none }

-- The steps that follow os.CreateTemp. `fault` is the first step that fails, if one does.
fill_temporary : {A : Type 0} → Option Fault → A → Disk A → Result Fault (Unit {0}) × Disk A
fill_temporary (some write) value d = (err write, record d { temporary = some none })
fill_temporary (some sync) value d = (err sync, record d { temporary = some (some value) })
fill_temporary (some close) value d = (err close, record d { temporary = some (some value) })
fill_temporary (some rename) value d = (err rename, record d { temporary = some (some value) })
fill_temporary _ value d =
    (ok tt, rename_temporary value (record d { temporary = some (some value) }))

-- The deferred os.Remove does not fail here: one step fails at most, and the result ignores it.
unfoldable pub write_json :
    {A : Type 0} → Option Fault → A → Disk A → Result Fault (Unit {0}) × Disk A
unfolding fill_temporary
write_json (some marshal) value d = (err marshal, d)
write_json (some mkdir) value d = (err mkdir, d)
write_json (some create) value d = (err create, d)
write_json fault value d =
    let (result, d') = fill_temporary fault value (record d { temporary = some none }) in
    (result, remove_temporary d')
