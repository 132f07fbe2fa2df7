-- ===== src/VcenterModules/Appliance.antt =====
-- modules/vcf_vcenter_appliance.py: the functions of the execution module, which call the client.
use saltext_vmware.Base.{String, Option}
use saltext_vmware.Json.{Json}
use saltext_vmware.Exec.{Env, Exec}
use saltext_vmware.VcenterClients.Appliance as Client

module _ ⦃E : Env⦄ (opts : Json) where
  unfoldable pub services_list : Option String → Exec Json
  services_list profile = Client.services_list opts profile

  unfoldable pub services_get : Json → Option String → Exec Json
  services_get service profile = Client.services_get opts service profile

  unfoldable pub services_start : Json → Option String → Exec Json
  services_start service profile = Client.services_start opts service profile

  unfoldable pub services_stop : Json → Option String → Exec Json
  services_stop service profile = Client.services_stop opts service profile

  unfoldable pub services_restart : Json → Option String → Exec Json
  services_restart service profile = Client.services_restart opts service profile

  unfoldable pub version : Option String → Exec Json
  version profile = Client.version opts profile

  unfoldable pub health_system : Option String → Exec Json
  health_system profile = Client.health_system opts profile

  unfoldable pub dns_get : Option String → Exec Json
  dns_get profile = Client.dns_get opts profile

  unfoldable pub logging_forwarding_get : Option String → Exec Json
  logging_forwarding_get profile = Client.logging_forwarding_get opts profile

  unfoldable pub ceip_get : Option String → Exec Json
  ceip_get profile = Client.ceip_get opts profile
