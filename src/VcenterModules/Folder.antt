-- ===== src/VcenterModules/Folder.antt =====
-- modules/vcf_vcenter_folder.py: the functions of the execution module, which call the client.
use saltext_vmware.Base.{String, Option}
use saltext_vmware.Json.{Json}
use saltext_vmware.Exec.{Env, Exec}
use saltext_vmware.VcenterClients.Folder as Client

module _ ⦃E : Env⦄ (opts : Json) where
  unfoldable pub list : Option String → Exec Json
  list profile = Client.list opts profile

  unfoldable pub get : Json → Option String → Exec Json
  get folder_id profile = Client.get opts folder_id profile

  unfoldable pub list_by_type : Json → Option String → Exec Json
  list_by_type folder_type profile = Client.list_by_type opts folder_type profile
