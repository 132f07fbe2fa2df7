-- ===== src/VcenterClients/LocalosUser.antt =====
-- clients/vcenter_localos_user.py.
use saltext_vmware.Base.{String, ◌<>◌, Option}
use saltext_vmware.Json.{Json, null}
use saltext_vmware.Exec.{Env, Exec, show}
use saltext_vmware.Rest.{or_none}
use saltext_vmware.Vcenter.Api.{api_get, api_delete}

abbrev path : String
path = "/api/appliance/local-accounts"

module _ ⦃E : Env⦄ (opts : Json) where
  unfoldable pub list : Option String → Exec Json
  list profile = api_get opts path null profile null

  unfoldable pub get : Json → Option String → Exec Json
  get username profile = api_get opts (path <> "/" <> show username) null profile null

  unfoldable pub get_or_none : Json → Option String → Exec Json
  get_or_none username profile = or_none (get username profile)

  unfoldable pub delete : Json → Option String → Exec Json
  delete username profile = api_delete opts (path <> "/" <> show username) null profile null
