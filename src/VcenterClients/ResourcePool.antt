-- ===== src/VcenterClients/ResourcePool.antt =====
-- clients/vcenter_resource_pool.py.
use saltext_vmware.Base.{String, ◌<>◌, Option}
use saltext_vmware.Json.{Json, null}
use saltext_vmware.Exec.{Env, Exec, show}
use saltext_vmware.Rest.{or_none}
use saltext_vmware.Vcenter.Api.{api_get, api_delete}

abbrev path : String
path = "/api/vcenter/resource-pool"

module _ ⦃E : Env⦄ (opts : Json) where
  unfoldable pub list : Option String → Exec Json
  list profile = api_get opts path null profile null

  unfoldable pub get : Json → Option String → Exec Json
  get rp_id profile = api_get opts (path <> "/" <> show rp_id) null profile null

  unfoldable pub get_or_none : Json → Option String → Exec Json
  get_or_none rp_id profile = or_none (get rp_id profile)

  unfoldable pub delete : Json → Option String → Exec Json
  delete rp_id profile = api_delete opts (path <> "/" <> show rp_id) null profile null
