-- ===== src/SddcModules/System.antt =====
-- modules/vcf_sddc_system.py: the functions of the execution module, which call the client.
use saltext_vmware.Base.{String, Option}
use saltext_vmware.Json.{Json}
use saltext_vmware.Exec.{Env, Exec}
use saltext_vmware.SddcClients.System as System
use saltext_vmware.SddcClients.Users as Users
use saltext_vmware.SddcClients.Avn as Avn

module _ ⦃E : Env⦄ (opts : Json) where
  unfoldable pub system_info : Option String → Exec Json
  system_info profile = System.get_system opts profile

  unfoldable pub list_personalities : Option String → Exec Json
  list_personalities profile = System.list_personalities opts profile

  unfoldable pub get_personality : Json → Option String → Exec Json
  get_personality personality_id profile = System.get_personality opts personality_id profile

  unfoldable pub list_users : Option String → Exec Json
  list_users profile = Users.list_users opts profile

  unfoldable pub list_roles : Option String → Exec Json
  list_roles profile = Users.list_roles opts profile

  unfoldable pub add_users : Json → Option String → Exec Json
  add_users user_specs profile = Users.add_users opts user_specs profile

  unfoldable pub delete_user : Json → Option String → Exec Json
  delete_user user_id profile = Users.delete_user opts user_id profile

  unfoldable pub list_avns : Option String → Exec Json
  list_avns profile = Avn.list opts profile
