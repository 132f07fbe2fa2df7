-- ===== src/VcenterModules/Datacenter.antt =====
-- modules/vcf_vcenter_datacenter.py: the functions of the execution module, which call the client.
use saltext_vmware.Base.{String, Option}
use saltext_vmware.Json.{Json}
use saltext_vmware.Exec.{Env, Exec}
use saltext_vmware.VcenterClients.Datacenter as Client

module _ ⦃E : Env⦄ (opts : Json) where
  unfoldable pub list : Option String → Exec Json
  list profile = Client.list opts profile

  unfoldable pub get : Json → Option String → Exec Json
  get datacenter profile = Client.get opts datacenter profile

  unfoldable pub delete : Json → Option String → Exec Json
  delete datacenter profile = Client.delete opts datacenter profile
