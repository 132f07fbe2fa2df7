-- ===== src/VcenterClients/SupervisorSoftware.antt =====
-- clients/vcenter_supervisor_software.py.
use saltext_vmware.Base.{String, ◌<>◌, Option}
use saltext_vmware.Json.{Json, null, str, obj, field, end}
use saltext_vmware.Exec.{Env, Exec, show}
use saltext_vmware.Rest.{or_none}
use saltext_vmware.Vcenter.Api.{api_get, api_post}

abbrev path : String
path = "/api/vcenter/namespace-management/software/clusters"

module _ ⦃E : Env⦄ (opts : Json) where
  unfoldable pub list : Option String → Exec Json
  list profile = api_get opts path null profile null

  unfoldable pub get : Json → Option String → Exec Json
  get cluster_id profile = api_get opts (path <> "/" <> show cluster_id) null profile null

  unfoldable pub get_or_none : Json → Option String → Exec Json
  get_or_none cluster_id profile = or_none (get cluster_id profile)

  unfoldable pub upgrade : Json → Json → Option String → Exec Json
  upgrade cluster_id upgrade_spec profile =
      api_post opts (path <> "/" <> show cluster_id) upgrade_spec
        (obj (field "action" (str "upgrade") end)) profile null
