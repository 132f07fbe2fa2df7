-- ===== src/SddcClients/NetworkPools.antt =====
-- clients/sddc_network_pools.py.
use saltext_vmware.Base.{String, ◌<>◌, Option}
use saltext_vmware.Json.{Json, null}
use saltext_vmware.Exec.{Env, Exec, show}
use saltext_vmware.Rest.{or_none}
use saltext_vmware.Sddc.Api.{api_get, api_post, api_delete}

abbrev path : String
path = "/v1/network-pools"

module _ ⦃E : Env⦄ (opts : Json) where
  unfoldable pub list : Option String → Exec Json
  list profile = api_get opts path null profile

  unfoldable pub get : Json → Option String → Exec Json
  get pool_id profile = api_get opts (path <> "/" <> show pool_id) null profile

  unfoldable pub get_or_none : Json → Option String → Exec Json
  get_or_none pool_id profile = or_none (get pool_id profile)

  unfoldable pub create : Json → Option String → Exec Json
  create network_pool_spec profile = api_post opts path network_pool_spec profile

  unfoldable pub delete : Json → Option String → Exec Json
  delete pool_id profile = api_delete opts (path <> "/" <> show pool_id) profile
