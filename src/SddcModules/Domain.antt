-- ===== src/SddcModules/Domain.antt =====
-- modules/vcf_sddc_domain.py: the functions of the execution module, which call the client.
use saltext_vmware.Base.{String, Option}
use saltext_vmware.Json.{Json}
use saltext_vmware.Exec.{Env, Exec}
use saltext_vmware.SddcClients.Domain as Client

module _ ⦃E : Env⦄ (opts : Json) where
  unfoldable pub list : Option String → Exec Json
  list profile = Client.list opts profile

  unfoldable pub get : Json → Option String → Exec Json
  get domain profile = Client.get opts domain profile

  unfoldable pub validate : Json → Option String → Exec Json
  validate spec profile = Client.validate opts spec profile

  unfoldable pub create : Json → Option String → Exec Json
  create spec profile = Client.create opts spec profile

  unfoldable pub update : Json → Json → Option String → Exec Json
  update domain spec profile = Client.update opts domain spec profile

  unfoldable pub delete : Json → Option String → Exec Json
  delete domain profile = Client.delete opts domain profile

  unfoldable pub mark_for_deletion : Json → Option String → Exec Json
  mark_for_deletion domain profile = Client.mark_for_deletion opts domain profile
