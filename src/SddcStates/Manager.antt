-- ===== src/SddcStates/Manager.antt =====
-- `ready` and `deployed` of states/vcf_sddc_manager.py.
use saltext_vmware.Base.{String, ◌<>◌, false, Option, some, if◌then◌else◌}
use saltext_vmware.Json.{Json, is_none}
use saltext_vmware.Exec.{Env, Exec, pure, ◌>>=◌}
use saltext_vmware.PatchState.Ret.{Ret, fresh}
use saltext_vmware.SddcClients.Manager.{get_or_none}

module _ ⦃E : Env⦄ (opts : Json) (name : String) (profile : Option String) where
  unfoldable pub ready : Exec Ret
  ready = do
    info ← get_or_none opts profile
    pure (
        if is_none info
        then record (fresh name) {
          result = some false;
          comment = "SDDC Manager " <> name <> " is not reachable";
        }
        else record (fresh name) { comment = "SDDC Manager " <> name <> " is reachable" })

  -- The arguments `topology` and `connection` are not read.
  unfoldable pub deployed : Json → Json → Exec Ret
  deployed topology connected = ready
