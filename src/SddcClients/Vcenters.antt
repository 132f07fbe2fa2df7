-- ===== src/SddcClients/Vcenters.antt =====
-- clients/sddc_vcenters.py.
use saltext_vmware.Base.{String, ◌<>◌, Option}
use saltext_vmware.Json.{Json, null}
use saltext_vmware.Exec.{Env, Exec, show}
use saltext_vmware.Rest.{or_none}
use saltext_vmware.Sddc.Api.{api_get}

abbrev path : String
path = "/v1/vcenters"

module _ ⦃E : Env⦄ (opts : Json) where
  unfoldable pub list : Option String → Exec Json
  list profile = api_get opts path null profile

  unfoldable pub get : Json → Option String → Exec Json
  get vcenter_id profile = api_get opts (path <> "/" <> show vcenter_id) null profile

  unfoldable pub get_or_none : Json → Option String → Exec Json
  get_or_none vcenter_id profile = or_none (get vcenter_id profile)
