-- ===== src/VcenterClients/Cluster.antt =====
-- clients/vcenter_cluster.py.
use saltext_vmware.Base.{String, ◌<>◌, Option}
use saltext_vmware.Json.{Json, null}
use saltext_vmware.Exec.{Env, Exec, show}
use saltext_vmware.Rest.{or_none}
use saltext_vmware.Vcenter.Api.{api_get, api_delete}

abbrev path : String
path = "/api/vcenter/cluster"

module _ ⦃E : Env⦄ (opts : Json) where
  unfoldable pub list : Option String → Exec Json
  list profile = api_get opts path null profile null

  unfoldable pub get : Json → Option String → Exec Json
  get cluster profile = api_get opts (path <> "/" <> show cluster) null profile null

  unfoldable pub get_or_none : Json → Option String → Exec Json
  get_or_none cluster profile = or_none (get cluster profile)

  unfoldable pub delete : Json → Option String → Exec Json
  delete cluster profile = api_delete opts (path <> "/" <> show cluster) null profile null
