-- ===== src/VcenterClients/Vm.antt =====
-- clients/vcenter_vm.py.
use saltext_vmware.Base.{String, ◌<>◌, Option}
use saltext_vmware.Json.{Json, null, obj, field, end}
use saltext_vmware.Exec.{Env, Exec, show}
use saltext_vmware.Rest.{or_none}
use saltext_vmware.Vcenter.Api.{api_get, api_post}

abbrev path : String
path = "/api/vcenter/vm"

module _ ⦃E : Env⦄ (opts : Json) where
  unfoldable pub list : Option String → Exec Json
  list profile = api_get opts path null profile null

  unfoldable pub get : Json → Option String → Exec Json
  get vm profile = api_get opts (path <> "/" <> show vm) null profile null

  unfoldable pub get_or_none : Json → Option String → Exec Json
  get_or_none vm profile = or_none (get vm profile)

  unfoldable pub power : Json → Json → Option String → Exec Json
  power vm action profile =
      api_post opts (path <> "/" <> show vm <> "/power") null (obj (field "action" action end))
        profile null
