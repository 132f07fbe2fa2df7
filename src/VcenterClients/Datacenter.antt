-- ===== src/VcenterClients/Datacenter.antt =====
-- clients/vcenter_datacenter.py.
use saltext_vmware.Base.{String, ◌<>◌, Option}
use saltext_vmware.Json.{Json, null}
use saltext_vmware.Exec.{Env, Exec, show}
use saltext_vmware.Rest.{or_none}
use saltext_vmware.Vcenter.Api.{api_get, api_delete}

abbrev path : String
path = "/api/vcenter/datacenter"

module _ ⦃E : Env⦄ (opts : Json) where
  unfoldable pub list : Option String → Exec Json
  list profile = api_get opts path null profile null

  unfoldable pub get : Json → Option String → Exec Json
  get datacenter profile = api_get opts (path <> "/" <> show datacenter) null profile null

  unfoldable pub get_or_none : Json → Option String → Exec Json
  get_or_none datacenter profile = or_none (get datacenter profile)

  unfoldable pub delete : Json → Option String → Exec Json
  delete datacenter profile = api_delete opts (path <> "/" <> show datacenter) null profile null
