-- ===== src/VcenterModules/SupervisorService.antt =====
-- modules/vcf_vcenter_supervisor_service.py: the functions of the execution module, which call the client.
use saltext_vmware.Base.{String, Option}
use saltext_vmware.Json.{Json}
use saltext_vmware.Exec.{Env, Exec}
use saltext_vmware.VcenterClients.SupervisorService as Client

module _ ⦃E : Env⦄ (opts : Json) where
  unfoldable pub list : Option String → Exec Json
  list profile = Client.list opts profile

  unfoldable pub get : Json → Option String → Exec Json
  get service_id profile = Client.get opts service_id profile

  unfoldable pub list_versions : Json → Option String → Exec Json
  list_versions service_id profile = Client.list_versions opts service_id profile

  unfoldable pub get_version : Json → Json → Option String → Exec Json
  get_version service_id version profile = Client.get_version opts service_id version profile

  unfoldable pub create : Json → Option String → Exec Json
  create service_spec profile = Client.create opts service_spec profile

  unfoldable pub activate : Json → Option String → Exec Json
  activate service_id profile = Client.activate opts service_id profile

  unfoldable pub deactivate : Json → Option String → Exec Json
  deactivate service_id profile = Client.deactivate opts service_id profile

  unfoldable pub delete : Json → Option String → Exec Json
  delete service_id profile = Client.delete opts service_id profile
