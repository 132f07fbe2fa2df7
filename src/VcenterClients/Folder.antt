-- ===== src/VcenterClients/Folder.antt =====
-- clients/vcenter_folder.py.
use saltext_vmware.Base.{String, ◌<>◌, Option}
use saltext_vmware.Json.{Json, null, obj, field, end}
use saltext_vmware.Exec.{Env, Exec, show}
use saltext_vmware.Rest.{or_none}
use saltext_vmware.Vcenter.Api.{api_get}

abbrev path : String
path = "/api/vcenter/folder"

module _ ⦃E : Env⦄ (opts : Json) where
  unfoldable pub list : Option String → Exec Json
  list profile = api_get opts path null profile null

  unfoldable pub get : Json → Option String → Exec Json
  get folder_id profile = api_get opts (path <> "/" <> show folder_id) null profile null

  unfoldable pub get_or_none : Json → Option String → Exec Json
  get_or_none folder_id profile = or_none (get folder_id profile)

  unfoldable pub list_by_type : Json → Option String → Exec Json
  list_by_type folder_type profile =
      api_get opts path (obj (field "type" folder_type end)) profile null
