-- ===== src/SddcModules/Host.antt =====
-- modules/vcf_sddc_host.py: the functions of the execution module, which call the client.
use saltext_vmware.Base.{String, Option}
use saltext_vmware.Json.{Json}
use saltext_vmware.Exec.{Env, Exec}
use saltext_vmware.SddcClients.Host as Client

module _ ⦃E : Env⦄ (opts : Json) where
  unfoldable pub list : Option String → Exec Json
  list profile = Client.list opts profile

  unfoldable pub get : Json → Option String → Exec Json
  get host profile = Client.get opts host profile

  unfoldable pub commission : Json → Option String → Exec Json
  commission host_specs profile = Client.commission opts host_specs profile

  unfoldable pub decommission : Json → Option String → Exec Json
  decommission host profile = Client.decommission opts host profile
