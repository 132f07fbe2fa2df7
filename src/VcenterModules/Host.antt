-- ===== src/VcenterModules/Host.antt =====
-- modules/vcf_vcenter_host.py: the functions of the execution module, which call the client.
use saltext_vmware.Base.{String, Option}
use saltext_vmware.Json.{Json}
use saltext_vmware.Exec.{Env, Exec}
use saltext_vmware.VcenterClients.Host as Client

module _ ⦃E : Env⦄ (opts : Json) where
  unfoldable pub list : Option String → Exec Json
  list profile = Client.list opts profile

  unfoldable pub get : Json → Option String → Exec Json
  get host profile = Client.get opts host profile

  unfoldable pub enter_maintenance : Json → Option String → Exec Json
  enter_maintenance host profile = Client.enter_maintenance opts host profile

  unfoldable pub exit_maintenance : Json → Option String → Exec Json
  exit_maintenance host profile = Client.exit_maintenance opts host profile
