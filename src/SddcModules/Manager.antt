-- ===== src/SddcModules/Manager.antt =====
-- modules/vcf_sddc_manager.py: the functions of the execution module, which call the client.
use saltext_vmware.Base.{String, Option}
use saltext_vmware.Json.{Json}
use saltext_vmware.Exec.{Env, Exec}
use saltext_vmware.SddcClients.Manager as Client

module _ ⦃E : Env⦄ (opts : Json) where
  unfoldable pub get : Option String → Exec Json
  get profile = Client.get opts profile
