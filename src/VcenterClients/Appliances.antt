-- ===== src/VcenterClients/Appliances.antt =====
-- clients/vcenter_appliances.py.
use saltext_vmware.Base.{String, Option}
use saltext_vmware.Json.{Json, null}
use saltext_vmware.Exec.{Env, Exec}
use saltext_vmware.Vcenter.Api.{api_get}

abbrev ntp : String
ntp = "/api/appliance/ntp"

module _ ⦃E : Env⦄ (opts : Json) where
  unfoldable pub ntp_get : Option String → Exec Json
  ntp_get profile = api_get opts ntp null profile null
