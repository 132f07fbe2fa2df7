-- ===== src/VcenterClients/Kms.antt =====
-- clients/vcenter_kms.py.
use saltext_vmware.Base.{String, ◌<>◌, Option}
use saltext_vmware.Json.{Json, null}
use saltext_vmware.Exec.{Env, Exec, show}
use saltext_vmware.Rest.{or_none}
use saltext_vmware.Vcenter.Api.{api_get, api_post, api_delete}

abbrev path : String
path = "/api/vcenter/crypto-manager/kms/providers"

module _ ⦃E : Env⦄ (opts : Json) where
  unfoldable pub list : Option String → Exec Json
  list profile = api_get opts path null profile null

  unfoldable pub get : Json → Option String → Exec Json
  get provider_id profile = api_get opts (path <> "/" <> show provider_id) null profile null

  unfoldable pub get_or_none : Json → Option String → Exec Json
  get_or_none provider_id profile = or_none (get provider_id profile)

  unfoldable pub create : Json → Option String → Exec Json
  create provider_spec profile = api_post opts path provider_spec null profile null

  unfoldable pub delete : Json → Option String → Exec Json
  delete provider_id profile = api_delete opts (path <> "/" <> show provider_id) null profile null
