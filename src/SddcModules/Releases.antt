-- ===== src/SddcModules/Releases.antt =====
-- modules/vcf_sddc_releases.py: the functions of the execution module, which call the client.
use saltext_vmware.Base.{String, Option}
use saltext_vmware.Json.{Json}
use saltext_vmware.Exec.{Env, Exec}
use saltext_vmware.SddcClients.Releases as Client

module _ ⦃E : Env⦄ (opts : Json) where
  unfoldable pub list : Option String → Exec Json
  list profile = Client.list opts profile

  unfoldable pub domain : Json → Option String → Exec Json
  domain domain_id profile = Client.domain opts domain_id profile

  unfoldable pub system : Option String → Exec Json
  system profile = Client.system opts profile

  unfoldable pub custom_patches : Json → Option String → Exec Json
  custom_patches domain_id profile = Client.custom_patches opts domain_id profile
