-- ===== src/VcenterClients/Appliance.antt =====
-- clients/vcenter_appliance.py.
use saltext_vmware.Base.{String, ◌<>◌, Option}
use saltext_vmware.Json.{Json, null, str, obj, field, end}
use saltext_vmware.Exec.{Env, Exec, show}
use saltext_vmware.Rest.{or_none}
use saltext_vmware.Vcenter.Api.{api_get, api_post}

abbrev ceip : String
ceip = "/api/appliance/ceip"

abbrev dns : String
dns = "/api/appliance/networking/dns/servers"

abbrev services : String
services = "/api/appliance/services"

abbrev syslog : String
syslog = "/api/appliance/logging/forwarding"

module _ ⦃E : Env⦄ (opts : Json) where
  unfoldable pub services_list : Option String → Exec Json
  services_list profile = api_get opts services null profile null

  unfoldable pub services_get : Json → Option String → Exec Json
  services_get service profile = api_get opts (services <> "/" <> show service) null profile null

  unfoldable pub services_get_or_none : Json → Option String → Exec Json
  services_get_or_none service profile = or_none (services_get service profile)

  unfoldable pub services_start : Json → Option String → Exec Json
  services_start service profile =
      api_post opts (services <> "/" <> show service) null (obj (field "action" (str "start") end))
        profile null

  unfoldable pub services_stop : Json → Option String → Exec Json
  services_stop service profile =
      api_post opts (services <> "/" <> show service) null (obj (field "action" (str "stop") end))
        profile null

  unfoldable pub services_restart : Json → Option String → Exec Json
  services_restart service profile =
      api_post opts (services <> "/" <> show service) null
        (obj (field "action" (str "restart") end)) profile null

  unfoldable pub version : Option String → Exec Json
  version profile = api_get opts "/api/appliance/system/version" null profile null

  unfoldable pub health_system : Option String → Exec Json
  health_system profile = api_get opts "/api/appliance/health/system" null profile null

  unfoldable pub dns_get : Option String → Exec Json
  dns_get profile = api_get opts dns null profile null

  unfoldable pub logging_forwarding_get : Option String → Exec Json
  logging_forwarding_get profile = api_get opts syslog null profile null

  unfoldable pub ceip_get : Option String → Exec Json
  ceip_get profile = api_get opts ceip null profile null
