-- ===== src/VcenterModules/SupervisorCompat.antt =====
-- modules/vcf_vcenter_supervisor_compat.py: the functions of the execution module, which call the client.
use saltext_vmware.Base.{String, Option}
use saltext_vmware.Json.{Json}
use saltext_vmware.Exec.{Env, Exec}
use saltext_vmware.VcenterClients.SupervisorCompat as Client

module _ ⦃E : Env⦄ (opts : Json) where
  unfoldable pub list_cluster_compatibility : Option String → Exec Json
  list_cluster_compatibility profile = Client.list_cluster_compatibility opts profile

  unfoldable pub list_dvs_compatibility : Json → Option String → Exec Json
  list_dvs_compatibility cluster_id profile = Client.list_dvs_compatibility opts cluster_id profile

  unfoldable pub list_edge_cluster_compatibility : Json → Json → Option String → Exec Json
  list_edge_cluster_compatibility cluster_id distributed_switch profile =
      Client.list_edge_cluster_compatibility opts cluster_id distributed_switch profile

  unfoldable pub get_cluster_size_info : Option String → Exec Json
  get_cluster_size_info profile = Client.get_cluster_size_info opts profile
