-- ===== src/VcenterClients/SupervisorService.antt =====
-- clients/vcenter_supervisor_service.py.
use saltext_vmware.Base.{String, ◌<>◌, Option}
use saltext_vmware.Json.{Json, null, str, obj, field, end}
use saltext_vmware.Exec.{Env, Exec, show}
use saltext_vmware.Rest.{or_none}
use saltext_vmware.Vcenter.Api.{api_get, api_post, api_delete}

abbrev path : String
path = "/api/vcenter/namespace-management/supervisor-services"

module _ ⦃E : Env⦄ (opts : Json) where
  unfoldable pub list : Option String → Exec Json
  list profile = api_get opts path null profile null

  unfoldable pub get : Json → Option String → Exec Json
  get service_id profile = api_get opts (path <> "/" <> show service_id) null profile null

  unfoldable pub get_or_none : Json → Option String → Exec Json
  get_or_none service_id profile = or_none (get service_id profile)

  unfoldable pub list_versions : Json → Option String → Exec Json
  list_versions service_id profile =
      api_get opts (path <> "/" <> show service_id <> "/versions") null profile null

  unfoldable pub get_version : Json → Json → Option String → Exec Json
  get_version service_id version profile =
      api_get opts (path <> "/" <> show service_id <> "/versions/" <> show version) null profile
        null

  unfoldable pub create : Json → Option String → Exec Json
  create service_spec profile = api_post opts path service_spec null profile null

  unfoldable pub activate : Json → Option String → Exec Json
  activate service_id profile =
      api_post opts (path <> "/" <> show service_id) null
        (obj (field "action" (str "activate") end)) profile null

  unfoldable pub deactivate : Json → Option String → Exec Json
  deactivate service_id profile =
      api_post opts (path <> "/" <> show service_id) null
        (obj (field "action" (str "deactivate") end)) profile null

  unfoldable pub delete : Json → Option String → Exec Json
  delete service_id profile = api_delete opts (path <> "/" <> show service_id) null profile null
