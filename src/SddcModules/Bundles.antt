-- ===== src/SddcModules/Bundles.antt =====
-- modules/vcf_sddc_bundles.py: the functions of the execution module, which call the client.
use saltext_vmware.Base.{String, Option}
use saltext_vmware.Json.{Json}
use saltext_vmware.Exec.{Env, Exec}
use saltext_vmware.SddcClients.Bundles as Client

module _ ⦃E : Env⦄ (opts : Json) where
  unfoldable pub list : Option String → Exec Json
  list profile = Client.list opts profile

  unfoldable pub get : Json → Option String → Exec Json
  get bundle_id profile = Client.get opts bundle_id profile

  unfoldable pub download : Json → Option String → Exec Json
  download bundle_id profile = Client.download opts bundle_id profile

  unfoldable pub upload : Json → Json → Json → Option String → Exec Json
  upload bundle_file_path manifest_file_path signature_file_path profile =
      Client.upload opts bundle_file_path manifest_file_path signature_file_path profile

  unfoldable pub delete : Json → Option String → Exec Json
  delete bundle_id profile = Client.delete opts bundle_id profile

  unfoldable pub for_skip_upgrade : Json → Option String → Exec Json
  for_skip_upgrade domain_id profile = Client.for_skip_upgrade opts domain_id profile
