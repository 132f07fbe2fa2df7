-- ===== src/VcenterModules/TagCategory.antt =====
-- modules/vcf_vcenter_tag_category.py: the functions of the execution module, which call the client.
use saltext_vmware.Base.{String, Option}
use saltext_vmware.Json.{Json}
use saltext_vmware.Exec.{Env, Exec}
use saltext_vmware.VcenterClients.TagCategory as Client

module _ ⦃E : Env⦄ (opts : Json) where
  unfoldable pub list : Option String → Exec Json
  list profile = Client.list opts profile

  unfoldable pub get : Json → Option String → Exec Json
  get category_id profile = Client.get opts category_id profile

  unfoldable pub delete : Json → Option String → Exec Json
  delete category_id profile = Client.delete opts category_id profile
