-- ===== src/VcenterModules/ContentLibrary.antt =====
-- modules/vcf_vcenter_content_library.py: the functions of the execution module, which call the client.
use saltext_vmware.Base.{String, Option}
use saltext_vmware.Json.{Json}
use saltext_vmware.Exec.{Env, Exec}
use saltext_vmware.VcenterClients.ContentLibrary as Client

module _ ⦃E : Env⦄ (opts : Json) where
  unfoldable pub list : Option String → Exec Json
  list profile = Client.list opts profile

  unfoldable pub get : Json → Option String → Exec Json
  get library_id profile = Client.get opts library_id profile

  unfoldable pub list_local : Option String → Exec Json
  list_local profile = Client.list_local opts profile

  unfoldable pub delete_local : Json → Option String → Exec Json
  delete_local library_id profile = Client.delete_local opts library_id profile

  unfoldable pub list_subscribed : Option String → Exec Json
  list_subscribed profile = Client.list_subscribed opts profile

  unfoldable pub list_items : Json → Option String → Exec Json
  list_items library_id profile = Client.list_items opts library_id profile

  unfoldable pub get_item : Json → Option String → Exec Json
  get_item item_id profile = Client.get_item opts item_id profile

  unfoldable pub delete_item : Json → Option String → Exec Json
  delete_item item_id profile = Client.delete_item opts item_id profile

  unfoldable pub sync_subscribed : Json → Option String → Exec Json
  sync_subscribed library_id profile = Client.sync_subscribed opts library_id profile

  unfoldable pub update_session_get : Json → Option String → Exec Json
  update_session_get session_id profile = Client.update_session_get opts session_id profile

  unfoldable pub update_session_complete : Json → Option String → Exec Json
  update_session_complete session_id profile =
      Client.update_session_complete opts session_id profile

  unfoldable pub update_session_cancel : Json → Option String → Exec Json
  update_session_cancel session_id profile = Client.update_session_cancel opts session_id profile

  unfoldable pub update_session_fail : Json → Json → Option String → Exec Json
  update_session_fail session_id error profile =
      Client.update_session_fail opts session_id error profile

  unfoldable pub update_session_keep_alive : Json → Option String → Exec Json
  update_session_keep_alive session_id profile =
      Client.update_session_keep_alive opts session_id profile

  unfoldable pub update_session_list_files : Json → Option String → Exec Json
  update_session_list_files session_id profile =
      Client.update_session_list_files opts session_id profile

  unfoldable pub ovf_deploy : Json → Json → Json → Option String → Json → Exec Json
  ovf_deploy library_item_id deployment_target deployment_spec profile timeout =
      Client.ovf_deploy opts library_item_id deployment_target deployment_spec timeout profile

  unfoldable pub ovf_filter : Json → Json → Option String → Exec Json
  ovf_filter library_item_id deployment_target profile =
      Client.ovf_filter opts library_item_id deployment_target profile

  unfoldable pub ovf_create_from_vm : Json → Json → Option String → Exec Json
  ovf_create_from_vm vm_id create_spec profile =
      Client.ovf_create_from_vm opts vm_id create_spec profile

  unfoldable pub vm_template_get : Json → Option String → Exec Json
  vm_template_get item_id profile = Client.vm_template_get opts item_id profile

  unfoldable pub vm_template_create : Json → Option String → Exec Json
  vm_template_create create_spec profile = Client.vm_template_create opts create_spec profile

  unfoldable pub vm_template_deploy : Json → Json → Option String → Exec Json
  vm_template_deploy item_id deploy_spec profile =
      Client.vm_template_deploy opts item_id deploy_spec profile
