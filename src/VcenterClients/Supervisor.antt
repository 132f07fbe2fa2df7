-- ===== src/VcenterClients/Supervisor.antt =====
-- clients/vcenter_supervisor.py.
use saltext_vmware.Base.{String, ◌<>◌, Option}
use saltext_vmware.Json.{Json, null}
use saltext_vmware.Exec.{Env, Exec, show}
use saltext_vmware.Rest.{or_none}
use saltext_vmware.Vcenter.Api.{api_get, api_post, api_delete}

abbrev clusters : String
clusters = "/api/vcenter/namespace-management/clusters"

abbrev compat : String
compat = "/api/vcenter/namespace-management/cluster-compatibility"

abbrev namespaces : String
namespaces = "/api/vcenter/namespaces/instances"

module _ ⦃E : Env⦄ (opts : Json) where
  unfoldable pub list_clusters : Option String → Exec Json
  list_clusters profile = api_get opts clusters null profile null

  unfoldable pub get_cluster : Json → Option String → Exec Json
  get_cluster cluster_id profile =
      api_get opts (clusters <> "/" <> show cluster_id) null profile null

  unfoldable pub get_cluster_or_none : Json → Option String → Exec Json
  get_cluster_or_none cluster_id profile = or_none (get_cluster cluster_id profile)

  unfoldable pub list_compatibility : Option String → Exec Json
  list_compatibility profile = api_get opts compat null profile null

  unfoldable pub enable_cluster : Json → Json → Option String → Exec Json
  enable_cluster cluster_id enable_spec profile =
      api_post opts (clusters <> "/" <> show cluster_id) enable_spec null profile null

  unfoldable pub disable_cluster : Json → Option String → Exec Json
  disable_cluster cluster_id profile =
      api_delete opts (clusters <> "/" <> show cluster_id) null profile null

  unfoldable pub list_namespaces : Option String → Exec Json
  list_namespaces profile = api_get opts namespaces null profile null

  unfoldable pub get_namespace : Json → Option String → Exec Json
  get_namespace namespace_id profile =
      api_get opts (namespaces <> "/" <> show namespace_id) null profile null

  unfoldable pub get_namespace_or_none : Json → Option String → Exec Json
  get_namespace_or_none namespace_id profile = or_none (get_namespace namespace_id profile)

  unfoldable pub create_namespace : Json → Option String → Exec Json
  create_namespace namespace_spec profile =
      api_post opts namespaces namespace_spec null profile null

  unfoldable pub delete_namespace : Json → Option String → Exec Json
  delete_namespace namespace_id profile =
      api_delete opts (namespaces <> "/" <> show namespace_id) null profile null
