-- ===== src/SddcModules/VcfServices.antt =====
-- modules/vcf_vcf_services.py: the functions of the execution module, which call the client.
use saltext_vmware.Base.{String, Option}
use saltext_vmware.Json.{Json}
use saltext_vmware.Exec.{Env, Exec}
use saltext_vmware.SddcClients.VcfServices as Client

module _ ⦃E : Env⦄ (opts : Json) where
  unfoldable pub list : Option String → Exec Json
  list profile = Client.list opts profile

  unfoldable pub get : Json → Option String → Exec Json
  get service_id profile = Client.get opts service_id profile

  unfoldable pub get_by_name : Json → Option String → Exec Json
  get_by_name name profile = Client.get_by_name opts name profile
