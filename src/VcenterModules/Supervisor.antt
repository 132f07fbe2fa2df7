-- ===== src/VcenterModules/Supervisor.antt =====
-- modules/vcf_vcenter_supervisor.py: the functions of the execution module, which call the client.
use saltext_vmware.Base.{String, Option}
use saltext_vmware.Json.{Json}
use saltext_vmware.Exec.{Env, Exec}
use saltext_vmware.VcenterClients.Supervisor as Client

module _ ⦃E : Env⦄ (opts : Json) where
  unfoldable pub list_clusters : Option String → Exec Json
  list_clusters profile = Client.list_clusters opts profile

  unfoldable pub get_cluster : Json → Option String → Exec Json
  get_cluster cluster_id profile = Client.get_cluster opts cluster_id profile

  unfoldable pub list_compatibility : Option String → Exec Json
  list_compatibility profile = Client.list_compatibility opts profile

  unfoldable pub enable_cluster : Json → Json → Option String → Exec Json
  enable_cluster cluster_id enable_spec profile =
      Client.enable_cluster opts cluster_id enable_spec profile

  unfoldable pub disable_cluster : Json → Option String → Exec Json
  disable_cluster cluster_id profile = Client.disable_cluster opts cluster_id profile

  unfoldable pub list_namespaces : Option String → Exec Json
  list_namespaces profile = Client.list_namespaces opts profile

  unfoldable pub get_namespace : Json → Option String → Exec Json
  get_namespace namespace_id profile = Client.get_namespace opts namespace_id profile

  unfoldable pub create_namespace : Json → Option String → Exec Json
  create_namespace namespace_spec profile = Client.create_namespace opts namespace_spec profile

  unfoldable pub delete_namespace : Json → Option String → Exec Json
  delete_namespace namespace_id profile = Client.delete_namespace opts namespace_id profile
