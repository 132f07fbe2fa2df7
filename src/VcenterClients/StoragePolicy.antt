-- ===== src/VcenterClients/StoragePolicy.antt =====
-- clients/vcenter_storage_policy.py.
use saltext_vmware.Base.{String, Option}
use saltext_vmware.Json.{Json, null}
use saltext_vmware.Exec.{Env, Exec}
use saltext_vmware.Vcenter.Api.{api_get}

abbrev path : String
path = "/api/vcenter/storage/policies"

module _ ⦃E : Env⦄ (opts : Json) where
  unfoldable pub list : Option String → Exec Json
  list profile = api_get opts path null profile null
