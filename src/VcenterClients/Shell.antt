-- ===== src/VcenterClients/Shell.antt =====
-- clients/vcenter_shell.py.
use saltext_vmware.Base.{String, Option}
use saltext_vmware.Json.{Json, null}
use saltext_vmware.Exec.{Env, Exec}
use saltext_vmware.Vcenter.Api.{api_get}

abbrev shell : String
shell = "/api/appliance/access/shell"

module _ ⦃E : Env⦄ (opts : Json) where
  unfoldable pub shell_get : Option String → Exec Json
  shell_get profile = api_get opts shell null profile null
