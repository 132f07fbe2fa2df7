-- ===== src/VcenterClients/Host.antt =====
-- clients/vcenter_host.py.
use saltext_vmware.Base.{String, ◌<>◌, Option}
use saltext_vmware.Json.{Json, null, str, obj, field, end}
use saltext_vmware.Exec.{Env, Exec, show}
use saltext_vmware.Rest.{or_none}
use saltext_vmware.Vcenter.Api.{api_get, api_post}

abbrev path : String
path = "/api/vcenter/host"

module _ ⦃E : Env⦄ (opts : Json) where
  unfoldable pub list : Option String → Exec Json
  list profile = api_get opts path null profile null

  unfoldable pub get : Json → Option String → Exec Json
  get host profile = api_get opts (path <> "/" <> show host) null profile null

  unfoldable pub get_or_none : Json → Option String → Exec Json
  get_or_none host profile = or_none (get host profile)

  unfoldable pub enter_maintenance : Json → Option String → Exec Json
  enter_maintenance host profile =
      api_post opts (path <> "/" <> show host) null
        (obj (field "action" (str "enter-maintenance-mode") end)) profile null

  unfoldable pub exit_maintenance : Json → Option String → Exec Json
  exit_maintenance host profile =
      api_post opts (path <> "/" <> show host) null
        (obj (field "action" (str "exit-maintenance-mode") end)) profile null
