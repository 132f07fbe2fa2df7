-- ===== src/VcenterModules/SupervisorSoftware.antt =====
-- modules/vcf_vcenter_supervisor_software.py: the functions of the execution module, which call the client.
use saltext_vmware.Base.{String, Option}
use saltext_vmware.Json.{Json}
use saltext_vmware.Exec.{Env, Exec}
use saltext_vmware.VcenterClients.SupervisorSoftware as Client

module _ ⦃E : Env⦄ (opts : Json) where
  unfoldable pub list : Option String → Exec Json
  list profile = Client.list opts profile

  unfoldable pub get : Json → Option String → Exec Json
  get cluster_id profile = Client.get opts cluster_id profile

  unfoldable pub upgrade : Json → Json → Option String → Exec Json
  upgrade cluster_id upgrade_spec profile = Client.upgrade opts cluster_id upgrade_spec profile
