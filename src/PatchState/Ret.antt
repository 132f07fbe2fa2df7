-- ===== src/PatchState/Ret.antt =====
-- What a state returns, and the settings that states/vcf_vc_patch.py reads from the pillar.
use saltext_vmware.Base.{String, Bool, true, false, Option, some, if◌then◌else◌}
use saltext_vmware.Json.{Json, null, empty, ◌or◌, is_none, truthy}
use saltext_vmware.Http.{Exc, Result, ok, get, ◌>>=◌}
use saltext_vmware.Exec.{Env, Exec, pure, catch}

pub record Ret : Type 0 where
  pub name : String
  pub changes : Json
  pub result : Option Bool
  pub comment : String

-- `_ret`
abbrev pub fresh : String → Ret
fresh name = record { name = name; changes = empty; result = some true; comment = "" }

-- `_fail`
unfoldable pub fail : Ret → Exc → Ret
fail ret e = record ret { result = some false; comment = e.message }

-- `_cfg`
unfoldable pub patch_config : Json → Result Json
patch_config opts = do
  pillar ← get opts "pillar" empty
  root ← get pillar "saltext.vcf" empty
  section ← get (root or empty) "vc_patch" empty
  ok (section or empty)

-- `_opt`
unfoldable pub option : Json → Json → String → Json → Result Json
option explicit cfg key default = if is_none explicit then get cfg key default else ok explicit

-- `explicit or cfg.get(key)`
unfoldable pub option_or : Json → Json → String → Result Json
option_or explicit cfg key = if truthy explicit then ok explicit else get cfg key null

module _ ⦃E : Env⦄ where
  -- `try: … except Exception as exc: return _fail(ret, exc)`
  unfoldable pub guarded : Ret → Exec Ret → Exec Ret
  guarded ret m = catch m (λ e. pure (fail ret e))
