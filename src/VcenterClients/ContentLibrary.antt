-- ===== src/VcenterClients/ContentLibrary.antt =====
-- clients/vcenter_content_library.py.
use saltext_vmware.Base.{String, ◌<>◌, Option}
use saltext_vmware.Json.{Json, null, str, obj, field, end}
use saltext_vmware.Exec.{Env, Exec, show}
use saltext_vmware.Rest.{or_none}
use saltext_vmware.Vcenter.Api.{api_get, api_post, api_delete}

abbrev item : String
item = "/api/content/library/item"

abbrev library : String
library = "/api/content/library"

abbrev local_library : String
local_library = "/api/content/local-library"

abbrev ovf_item : String
ovf_item = "/api/vcenter/ovf/library-item"

abbrev subscribed_library : String
subscribed_library = "/api/content/subscribed-library"

abbrev update_session : String
update_session = "/api/content/library/item/update-session"

abbrev vm_template : String
vm_template = "/api/vcenter/vm-template/library-items"

module _ ⦃E : Env⦄ (opts : Json) where
  unfoldable pub list : Option String → Exec Json
  list profile = api_get opts library null profile null

  unfoldable pub get : Json → Option String → Exec Json
  get library_id profile = api_get opts (library <> "/" <> show library_id) null profile null

  unfoldable pub get_or_none : Json → Option String → Exec Json
  get_or_none library_id profile = or_none (get library_id profile)

  unfoldable pub list_local : Option String → Exec Json
  list_local profile = api_get opts local_library null profile null

  unfoldable pub delete_local : Json → Option String → Exec Json
  delete_local library_id profile =
      api_delete opts (local_library <> "/" <> show library_id) null profile null

  unfoldable pub list_subscribed : Option String → Exec Json
  list_subscribed profile = api_get opts subscribed_library null profile null

  unfoldable pub delete_subscribed : Json → Option String → Exec Json
  delete_subscribed library_id profile =
      api_delete opts (subscribed_library <> "/" <> show library_id) null profile null

  unfoldable pub list_items : Json → Option String → Exec Json
  list_items library_id profile =
      api_get opts item (obj (field "library_id" library_id end)) profile null

  unfoldable pub get_item : Json → Option String → Exec Json
  get_item item_id profile = api_get opts (item <> "/" <> show item_id) null profile null

  unfoldable pub get_item_or_none : Json → Option String → Exec Json
  get_item_or_none item_id profile = or_none (get_item item_id profile)

  unfoldable pub delete_item : Json → Option String → Exec Json
  delete_item item_id profile = api_delete opts (item <> "/" <> show item_id) null profile null

  unfoldable pub sync_subscribed : Json → Option String → Exec Json
  sync_subscribed library_id profile =
      api_post opts (subscribed_library <> "/" <> show library_id) null
        (obj (field "action" (str "sync") end)) profile null

  unfoldable pub update_session_get : Json → Option String → Exec Json
  update_session_get session_id profile =
      api_get opts (update_session <> "/" <> show session_id) null profile null

  unfoldable pub update_session_complete : Json → Option String → Exec Json
  update_session_complete session_id profile =
      api_post opts (update_session <> "/" <> show session_id) null
        (obj (field "action" (str "complete") end)) profile null

  unfoldable pub update_session_cancel : Json → Option String → Exec Json
  update_session_cancel session_id profile =
      api_post opts (update_session <> "/" <> show session_id) null
        (obj (field "action" (str "cancel") end)) profile null

  unfoldable pub update_session_fail : Json → Json → Option String → Exec Json
  update_session_fail session_id error profile =
      api_post opts (update_session <> "/" <> show session_id)
        (obj (field "client_error_message" error end)) (obj (field "action" (str "fail") end))
        profile null

  unfoldable pub update_session_keep_alive : Json → Option String → Exec Json
  update_session_keep_alive session_id profile =
      api_post opts (update_session <> "/" <> show session_id) null
        (obj (field "action" (str "keep-alive") end)) profile null

  unfoldable pub update_session_list_files : Json → Option String → Exec Json
  update_session_list_files session_id profile =
      api_get opts (update_session <> "/" <> show session_id <> "/file") null profile null

  unfoldable pub ovf_deploy : Json → Json → Json → Json → Option String → Exec Json
  ovf_deploy library_item_id deployment_target deployment_spec timeout profile =
      api_post opts (ovf_item <> "/" <> show library_item_id)
        (obj (field "target" deployment_target (field "deployment_spec" deployment_spec end)))
        (obj (field "action" (str "deploy") end)) profile timeout

  unfoldable pub ovf_filter : Json → Json → Option String → Exec Json
  ovf_filter library_item_id deployment_target profile =
      api_post opts (ovf_item <> "/" <> show library_item_id)
        (obj (field "target" deployment_target end)) (obj (field "action" (str "filter") end))
        profile null

  unfoldable pub ovf_create_from_vm : Json → Json → Option String → Exec Json
  ovf_create_from_vm vm_id create_spec profile =
      api_post opts ovf_item
        (obj (
          field "source" (obj (field "type" (str "VirtualMachine") (field "id" vm_id end)))
            (field "create_spec" create_spec end)))
        (obj (field "action" (str "create_from_vm_template") end)) profile null

  unfoldable pub vm_template_get : Json → Option String → Exec Json
  vm_template_get item_id profile =
      api_get opts (vm_template <> "/" <> show item_id) null profile null

  unfoldable pub vm_template_get_or_none : Json → Option String → Exec Json
  vm_template_get_or_none item_id profile = or_none (vm_template_get item_id profile)

  unfoldable pub vm_template_create : Json → Option String → Exec Json
  vm_template_create create_spec profile =
      api_post opts vm_template (obj (field "spec" create_spec end)) null profile null

  unfoldable pub vm_template_deploy : Json → Json → Option String → Exec Json
  vm_template_deploy item_id deploy_spec profile =
      api_post opts (vm_template <> "/" <> show item_id) (obj (field "spec" deploy_spec end))
        (obj (field "action" (str "deploy") end)) profile null
