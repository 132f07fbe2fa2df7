-- ===== src/VcenterModules/Kms.antt =====
-- modules/vcf_vcenter_kms.py: the functions of the execution module, which call the client.
use saltext_vmware.Base.{String, Option}
use saltext_vmware.Json.{Json}
use saltext_vmware.Exec.{Env, Exec}
use saltext_vmware.VcenterClients.Kms as Client

module _ ⦃E : Env⦄ (opts : Json) where
  unfoldable pub list : Option String → Exec Json
  list profile = Client.list opts profile

  unfoldable pub get : Json → Option String → Exec Json
  get provider_id profile = Client.get opts provider_id profile

  unfoldable pub create : Json → Option String → Exec Json
  create provider_spec profile = Client.create opts provider_spec profile

  unfoldable pub delete : Json → Option String → Exec Json
  delete provider_id profile = Client.delete opts provider_id profile
