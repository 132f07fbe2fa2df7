-- ===== src/SddcClients/Users.antt =====
-- clients/sddc_users.py.
use saltext_vmware.Base.{String, ◌<>◌, Option}
use saltext_vmware.Json.{Json, null}
use saltext_vmware.Exec.{Env, Exec, lift, ◌>>=◌, show}
use saltext_vmware.Rest.{or_none, as_list}
use saltext_vmware.Sddc.Api.{api_get, api_post, api_delete}

abbrev roles : String
roles = "/v1/roles"

abbrev users : String
users = "/v1/users"

module _ ⦃E : Env⦄ (opts : Json) where
  unfoldable pub list_users : Option String → Exec Json
  list_users profile = api_get opts users null profile

  unfoldable pub list_roles : Option String → Exec Json
  list_roles profile = api_get opts roles null profile

  unfoldable pub get_user : Json → Option String → Exec Json
  get_user user_id profile = api_get opts (users <> "/" <> show user_id) null profile

  unfoldable pub get_user_or_none : Json → Option String → Exec Json
  get_user_or_none user_id profile = or_none (get_user user_id profile)

  unfoldable pub delete_user : Json → Option String → Exec Json
  delete_user user_id profile = api_delete opts (users <> "/" <> show user_id) profile

  unfoldable pub add_users : Json → Option String → Exec Json
  add_users new_users profile = do body ← lift (as_list new_users); api_post opts users body profile
