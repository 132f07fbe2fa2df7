-- ===== src/VcenterModules/Tag.antt =====
-- modules/vcf_vcenter_tag.py: the functions of the execution module, which call the client.
use saltext_vmware.Base.{String, Option}
use saltext_vmware.Json.{Json}
use saltext_vmware.Exec.{Env, Exec}
use saltext_vmware.VcenterClients.Tag as Client

module _ ⦃E : Env⦄ (opts : Json) where
  unfoldable pub list : Option String → Exec Json
  list profile = Client.list opts profile

  unfoldable pub create : Json → Json → Json → Option String → Exec Json
  create name category_id description profile =
      Client.create opts name category_id description profile

  unfoldable pub get : Json → Option String → Exec Json
  get tag profile = Client.get opts tag profile

  unfoldable pub delete : Json → Option String → Exec Json
  delete tag profile = Client.delete opts tag profile

  unfoldable pub assign : Json → Json → Json → Option String → Exec Json
  assign tag object_type object_id profile = Client.assign opts tag object_type object_id profile

  unfoldable pub list_assigned : Json → Json → Option String → Exec Json
  list_assigned object_type object_id profile =
      Client.list_assigned opts object_type object_id profile
