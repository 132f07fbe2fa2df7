-- ===== src/VcenterClients/Tag.antt =====
-- clients/vcenter_tag.py.
use saltext_vmware.Base.{String, ◌<>◌, Option}
use saltext_vmware.Json.{Json, null, str, obj, field, end}
use saltext_vmware.Exec.{Env, Exec, show}
use saltext_vmware.Rest.{or_none}
use saltext_vmware.Vcenter.Api.{api_get, api_post, api_delete}

abbrev assoc_path : String
assoc_path = "/api/cis/tagging/tag-association"

abbrev path : String
path = "/api/cis/tagging/tag"

module _ ⦃E : Env⦄ (opts : Json) where
  unfoldable pub list : Option String → Exec Json
  list profile = api_get opts path null profile null

  unfoldable pub get : Json → Option String → Exec Json
  get tag profile = api_get opts (path <> "/" <> show tag) null profile null

  unfoldable pub get_or_none : Json → Option String → Exec Json
  get_or_none tag profile = or_none (get tag profile)

  unfoldable pub create : Json → Json → Json → Option String → Exec Json
  create name category_id description profile =
      api_post opts path
        (obj (
          field "name" name
            (field "category_id" category_id (field "description" description end))))
        null profile null

  unfoldable pub delete : Json → Option String → Exec Json
  delete tag profile = api_delete opts (path <> "/" <> show tag) null profile null

  unfoldable pub assign : Json → Json → Json → Option String → Exec Json
  assign tag object_type object_id profile =
      api_post opts (assoc_path <> "/" <> show tag)
        (obj (field "object_id" (obj (field "type" object_type (field "id" object_id end))) end))
        (obj (field "action" (str "attach") end)) profile null

  unfoldable pub list_assigned : Json → Json → Option String → Exec Json
  list_assigned object_type object_id profile =
      api_post opts assoc_path
        (obj (field "object_id" (obj (field "type" object_type (field "id" object_id end))) end))
        (obj (field "action" (str "list-attached-tags") end)) profile null
