-- ===== src/SddcModules/NetworkPools.antt =====
-- modules/vcf_sddc_network_pools.py: the functions of the execution module, which call the client.
use saltext_vmware.Base.{String, Option}
use saltext_vmware.Json.{Json}
use saltext_vmware.Exec.{Env, Exec}
use saltext_vmware.SddcClients.NetworkPools as Client

module _ ⦃E : Env⦄ (opts : Json) where
  unfoldable pub list : Option String → Exec Json
  list profile = Client.list opts profile

  unfoldable pub get : Json → Option String → Exec Json
  get pool_id profile = Client.get opts pool_id profile

  unfoldable pub create : Json → Option String → Exec Json
  create network_pool_spec profile = Client.create opts network_pool_spec profile

  unfoldable pub delete : Json → Option String → Exec Json
  delete pool_id profile = Client.delete opts pool_id profile
