-- ===== src/SddcModules/Cluster.antt =====
-- modules/vcf_sddc_cluster.py: the functions of the execution module, which call the client.
use saltext_vmware.Base.{String, Option}
use saltext_vmware.Json.{Json}
use saltext_vmware.Exec.{Env, Exec}
use saltext_vmware.SddcClients.Cluster as Client

module _ ⦃E : Env⦄ (opts : Json) where
  unfoldable pub list : Option String → Exec Json
  list profile = Client.list opts profile

  unfoldable pub get : Json → Option String → Exec Json
  get cluster profile = Client.get opts cluster profile

  unfoldable pub create : Json → Option String → Exec Json
  create cluster_spec profile = Client.create opts cluster_spec profile

  unfoldable pub delete : Json → Option String → Exec Json
  delete cluster profile = Client.delete opts cluster profile
