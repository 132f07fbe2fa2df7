-- ===== src/VcenterClients/Datastore.antt =====
-- clients/vcenter_datastore.py.
use saltext_vmware.Base.{String, ◌<>◌, Option}
use saltext_vmware.Json.{Json, null}
use saltext_vmware.Exec.{Env, Exec, show}
use saltext_vmware.Rest.{or_none}
use saltext_vmware.Vcenter.Api.{api_get}

abbrev path : String
path = "/api/vcenter/datastore"

module _ ⦃E : Env⦄ (opts : Json) where
  unfoldable pub list : Option String → Exec Json
  list profile = api_get opts path null profile null

  unfoldable pub get : Json → Option String → Exec Json
  get datastore profile = api_get opts (path <> "/" <> show datastore) null profile null

  unfoldable pub get_or_none : Json → Option String → Exec Json
  get_or_none datastore profile = or_none (get datastore profile)
