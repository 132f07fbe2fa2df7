-- ===== src/SddcModules/Credentials.antt =====
-- modules/vcf_sddc_credentials.py: the functions of the execution module, which call the client.
use saltext_vmware.Base.{String, Option}
use saltext_vmware.Json.{Json}
use saltext_vmware.Exec.{Env, Exec}
use saltext_vmware.SddcClients.Credentials as Client

module _ ⦃E : Env⦄ (opts : Json) where
  unfoldable pub list : Option String → Exec Json
  list profile = Client.list opts profile

  unfoldable pub rotate : Json → Option String → Exec Json
  rotate elements profile = Client.rotate opts elements profile
