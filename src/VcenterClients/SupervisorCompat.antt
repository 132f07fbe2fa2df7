-- ===== src/VcenterClients/SupervisorCompat.antt =====
-- clients/vcenter_supervisor_compat.py.
use saltext_vmware.Base.{String, Option}
use saltext_vmware.Json.{Json, null, obj, field, end}
use saltext_vmware.Exec.{Env, Exec}
use saltext_vmware.Vcenter.Api.{api_get}

abbrev cluster_compat : String
cluster_compat = "/api/vcenter/namespace-management/cluster-compatibility"

abbrev dvs_compat : String
dvs_compat = "/api/vcenter/namespace-management/distributed-switch-compatibility"

abbrev edge_compat : String
edge_compat = "/api/vcenter/namespace-management/edge-cluster-compatibility"

abbrev size_info : String
size_info = "/api/vcenter/namespace-management/cluster-size-info"

module _ ⦃E : Env⦄ (opts : Json) where
  unfoldable pub list_cluster_compatibility : Option String → Exec Json
  list_cluster_compatibility profile = api_get opts cluster_compat null profile null

  unfoldable pub list_dvs_compatibility : Json → Option String → Exec Json
  list_dvs_compatibility cluster_id profile =
      api_get opts dvs_compat (obj (field "cluster" cluster_id end)) profile null

  unfoldable pub list_edge_cluster_compatibility : Json → Json → Option String → Exec Json
  list_edge_cluster_compatibility cluster_id distributed_switch profile =
      api_get opts edge_compat
        (obj (field "cluster" cluster_id (field "distributed_switch" distributed_switch end)))
        profile null

  unfoldable pub get_cluster_size_info : Option String → Exec Json
  get_cluster_size_info profile = api_get opts size_info null profile null
