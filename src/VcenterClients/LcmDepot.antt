-- ===== src/VcenterClients/LcmDepot.antt =====
-- clients/vcenter_lcm_depot.py.
use saltext_vmware.Base.{String, Option}
use saltext_vmware.Json.{Json, null, str, obj, field, end}
use saltext_vmware.Exec.{Env, Exec}
use saltext_vmware.Vcenter.Api.{api_post}

abbrev depots : String
depots = "/api/esx/settings/depots"

module _ ⦃E : Env⦄ (opts : Json) where
  unfoldable pub sync : Option String → Exec Json
  sync profile = api_post opts depots null (obj (field "action" (str "sync") end)) profile null
