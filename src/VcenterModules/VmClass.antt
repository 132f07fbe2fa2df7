-- ===== src/VcenterModules/VmClass.antt =====
-- modules/vcf_vcenter_vm_class.py: the functions of the execution module, which call the client.
use saltext_vmware.Base.{String, Option}
use saltext_vmware.Json.{Json}
use saltext_vmware.Exec.{Env, Exec}
use saltext_vmware.VcenterClients.VmClass as Client

module _ ⦃E : Env⦄ (opts : Json) where
  unfoldable pub list : Option String → Exec Json
  list profile = Client.list opts profile

  unfoldable pub get : Json → Option String → Exec Json
  get class_id profile = Client.get opts class_id profile

  unfoldable pub create : Json → Option String → Exec Json
  create class_spec profile = Client.create opts class_spec profile

  unfoldable pub update : Json → Json → Option String → Exec Json
  update class_id class_spec profile = Client.update opts class_id class_spec profile

  unfoldable pub delete : Json → Option String → Exec Json
  delete class_id profile = Client.delete opts class_id profile
