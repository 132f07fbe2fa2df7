-- ===== src/SddcModules/Personalities.antt =====
-- modules/vcf_sddc_personalities.py: the functions of the execution module, which call the client.
use saltext_vmware.Base.{String, Option}
use saltext_vmware.Json.{Json}
use saltext_vmware.Exec.{Env, Exec}
use saltext_vmware.SddcClients.Personalities as Client

module _ ⦃E : Env⦄ (opts : Json) where
  unfoldable pub list : Json → Json → Option String → Exec Json
  list personality_name cluster_id profile = Client.list opts personality_name cluster_id profile

  unfoldable pub get : Json → Option String → Exec Json
  get personality_id profile = Client.get opts personality_id profile

  unfoldable pub create : Json → Option String → Exec Json
  create personality_spec profile = Client.create opts personality_spec profile

  unfoldable pub delete : Json → Option String → Exec Json
  delete personality_id profile = Client.delete opts personality_id profile

  unfoldable pub rename : Json → Json → Option String → Exec Json
  rename personality_id personality_name profile =
      Client.rename opts personality_id personality_name profile

  unfoldable pub upload_files : Json → Option String → Exec Json
  upload_files upload_spec profile = Client.upload_files opts upload_spec profile
