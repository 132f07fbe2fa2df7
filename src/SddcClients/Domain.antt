-- ===== src/SddcClients/Domain.antt =====
-- clients/sddc_domain.py.
use saltext_vmware.Base.{String, ◌<>◌, true, Option}
use saltext_vmware.Json.{Json, null, bool, obj, field, end}
use saltext_vmware.Exec.{Env, Exec, ◌>>=◌, show}
use saltext_vmware.Rest.{or_none, element_with}
use saltext_vmware.Sddc.Api.{api_get, api_post, api_patch, api_delete}

abbrev path : String
path = "/v1/domains"

module _ ⦃E : Env⦄ (opts : Json) where
  unfoldable pub list : Option String → Exec Json
  list profile = api_get opts path null profile

  unfoldable pub get : Json → Option String → Exec Json
  get domain profile = api_get opts (path <> "/" <> show domain) null profile

  unfoldable pub get_or_none : Json → Option String → Exec Json
  get_or_none domain profile = or_none (get domain profile)

  unfoldable pub validate : Json → Option String → Exec Json
  validate spec profile = api_post opts (path <> "/validations") spec profile

  unfoldable pub create : Json → Option String → Exec Json
  create spec profile = api_post opts path spec profile

  unfoldable pub update : Json → Json → Option String → Exec Json
  update domain spec profile = api_patch opts (path <> "/" <> show domain) spec profile

  unfoldable pub delete : Json → Option String → Exec Json
  delete domain profile = api_delete opts (path <> "/" <> show domain) profile

  unfoldable pub mark_for_deletion : Json → Option String → Exec Json
  mark_for_deletion domain profile =
      api_patch opts (path <> "/" <> show domain) (obj (field "markForDeletion" (bool true) end))
        profile

  unfoldable pub list_endpoints : Json → Option String → Exec Json
  list_endpoints domain profile =
      api_get opts (path <> "/" <> show domain <> "/endpoints") null profile

  unfoldable pub get_by_name : Json → Option String → Exec Json
  get_by_name name profile = do body ← list profile; element_with "name" name body
