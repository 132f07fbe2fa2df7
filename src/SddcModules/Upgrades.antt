-- ===== src/SddcModules/Upgrades.antt =====
-- modules/vcf_sddc_upgrades.py: the functions of the execution module, which call the client.
use saltext_vmware.Base.{String, Option}
use saltext_vmware.Json.{Json}
use saltext_vmware.Exec.{Env, Exec}
use saltext_vmware.SddcClients.Upgrades as Client

module _ ⦃E : Env⦄ (opts : Json) where
  unfoldable pub list : Option String → Exec Json
  list profile = Client.list opts profile

  unfoldable pub get : Json → Option String → Exec Json
  get upgrade_id profile = Client.get opts upgrade_id profile

  unfoldable pub start : Json → Option String → Exec Json
  start upgrade_spec profile = Client.start opts upgrade_spec profile
