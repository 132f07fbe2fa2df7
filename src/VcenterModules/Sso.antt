-- ===== src/VcenterModules/Sso.antt =====
-- modules/vcf_vcenter_sso.py: the functions of the execution module, which call the client.
use saltext_vmware.Base.{String, Option}
use saltext_vmware.Json.{Json}
use saltext_vmware.Exec.{Env, Exec}
use saltext_vmware.VcenterClients.Sso as Client

module _ ⦃E : Env⦄ (opts : Json) where
  unfoldable pub providers_list : Option String → Exec Json
  providers_list profile = Client.providers_list opts profile

  unfoldable pub providers_get : Json → Option String → Exec Json
  providers_get provider_id profile = Client.providers_get opts provider_id profile

  unfoldable pub providers_get_or_none : Json → Option String → Exec Json
  providers_get_or_none provider_id profile = Client.providers_get_or_none opts provider_id profile

  unfoldable pub providers_delete : Json → Option String → Exec Json
  providers_delete provider_id profile = Client.providers_delete opts provider_id profile

  unfoldable pub groups_get : Json → Option String → Exec Json
  groups_get group profile = Client.groups_get opts group profile

  unfoldable pub groups_get_or_none : Json → Option String → Exec Json
  groups_get_or_none group profile = Client.groups_get_or_none opts group profile

  unfoldable pub groups_create : Json → Json → Json → Option String → Exec Json
  groups_create name domain description profile =
      Client.groups_create opts name domain description profile

  unfoldable pub groups_delete : Json → Option String → Exec Json
  groups_delete group profile = Client.groups_delete opts group profile

  unfoldable pub users_get : Json → Option String → Exec Json
  users_get user profile = Client.users_get opts user profile

  unfoldable pub users_get_or_none : Json → Option String → Exec Json
  users_get_or_none user profile = Client.users_get_or_none opts user profile

  unfoldable pub users_delete : Json → Option String → Exec Json
  users_delete user profile = Client.users_delete opts user profile
