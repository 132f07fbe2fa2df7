-- ===== src/VcenterClients/TagCategory.antt =====
-- clients/vcenter_tag_category.py.
use saltext_vmware.Base.{String, ◌<>◌, Option}
use saltext_vmware.Json.{Json, null}
use saltext_vmware.Exec.{Env, Exec, show}
use saltext_vmware.Rest.{or_none}
use saltext_vmware.Vcenter.Api.{api_get, api_delete}

abbrev path : String
path = "/api/cis/tagging/category"

module _ ⦃E : Env⦄ (opts : Json) where
  unfoldable pub list : Option String → Exec Json
  list profile = api_get opts path null profile null

  unfoldable pub get : Json → Option String → Exec Json
  get category_id profile = api_get opts (path <> "/" <> show category_id) null profile null

  unfoldable pub get_or_none : Json → Option String → Exec Json
  get_or_none category_id profile = or_none (get category_id profile)

  unfoldable pub delete : Json → Option String → Exec Json
  delete category_id profile = api_delete opts (path <> "/" <> show category_id) null profile null
