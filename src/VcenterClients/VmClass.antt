-- ===== src/VcenterClients/VmClass.antt =====
-- clients/vcenter_vm_class.py.
use saltext_vmware.Base.{String, ◌<>◌, Option}
use saltext_vmware.Json.{Json, null}
use saltext_vmware.Exec.{Env, Exec, show}
use saltext_vmware.Rest.{or_none}
use saltext_vmware.Vcenter.Api.{api_get, api_post, api_patch, api_delete}

abbrev path : String
path = "/api/vcenter/namespace-management/virtual-machine-classes"

module _ ⦃E : Env⦄ (opts : Json) where
  unfoldable pub list : Option String → Exec Json
  list profile = api_get opts path null profile null

  unfoldable pub get : Json → Option String → Exec Json
  get class_id profile = api_get opts (path <> "/" <> show class_id) null profile null

  unfoldable pub get_or_none : Json → Option String → Exec Json
  get_or_none class_id profile = or_none (get class_id profile)

  unfoldable pub create : Json → Option String → Exec Json
  create class_spec profile = api_post opts path class_spec null profile null

  unfoldable pub update : Json → Json → Option String → Exec Json
  update class_id class_spec profile =
      api_patch opts (path <> "/" <> show class_id) class_spec profile null

  unfoldable pub delete : Json → Option String → Exec Json
  delete class_id profile = api_delete opts (path <> "/" <> show class_id) null profile null
