-- ===== src/VcenterClients/Sso.antt =====
-- clients/vcenter_sso.py.
use saltext_vmware.Base.{String, ◌<>◌, Option}
use saltext_vmware.Json.{Json, null, obj, field, end}
use saltext_vmware.Exec.{Env, Exec, show}
use saltext_vmware.Rest.{or_none}
use saltext_vmware.Vcenter.Api.{api_get, api_post, api_delete}

abbrev groups : String
groups = "/api/vcenter/identity/groups"

abbrev providers : String
providers = "/api/vcenter/identity/providers"

abbrev users : String
users = "/api/vcenter/identity/users"

module _ ⦃E : Env⦄ (opts : Json) where
  unfoldable pub providers_list : Option String → Exec Json
  providers_list profile = api_get opts providers null profile null

  unfoldable pub providers_get : Json → Option String → Exec Json
  providers_get provider_id profile =
      api_get opts (providers <> "/" <> show provider_id) null profile null

  unfoldable pub providers_get_or_none : Json → Option String → Exec Json
  providers_get_or_none provider_id profile = or_none (providers_get provider_id profile)

  unfoldable pub providers_delete : Json → Option String → Exec Json
  providers_delete provider_id profile =
      api_delete opts (providers <> "/" <> show provider_id) null profile null

  unfoldable pub groups_get : Json → Option String → Exec Json
  groups_get group profile = api_get opts (groups <> "/" <> show group) null profile null

  unfoldable pub groups_get_or_none : Json → Option String → Exec Json
  groups_get_or_none group profile = or_none (groups_get group profile)

  unfoldable pub groups_create : Json → Json → Json → Option String → Exec Json
  groups_create name domain description profile =
      api_post opts groups
        (obj (field "name" name (field "domain" domain (field "description" description end)))) null
        profile null

  unfoldable pub groups_delete : Json → Option String → Exec Json
  groups_delete group profile = api_delete opts (groups <> "/" <> show group) null profile null

  unfoldable pub users_get : Json → Option String → Exec Json
  users_get user profile = api_get opts (users <> "/" <> show user) null profile null

  unfoldable pub users_get_or_none : Json → Option String → Exec Json
  users_get_or_none user profile = or_none (users_get user profile)

  unfoldable pub users_delete : Json → Option String → Exec Json
  users_delete user profile = api_delete opts (users <> "/" <> show user) null profile null
