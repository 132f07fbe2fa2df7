-- ===== src/SddcModules/WorkloadDomain.antt =====
-- modules/vcf_sddc_workload_domain.py: the functions of the execution module, which call the clients
-- and wait for the task where they are told to.
use saltext_vmware.Base.{ℕ, String, Bool, true, false, ◌&&◌, Option, none, some, if◌then◌else◌}
use saltext_vmware.Json.{Json, obj, lookup, truthy}
use saltext_vmware.Http.{item}
use saltext_vmware.Exec.{Env, Exec, pure, lift, ◌>>=◌}
use saltext_vmware.SddcClients.Domain as Domain
use saltext_vmware.SddcClients.ClusterOps as ClusterOps
use saltext_vmware.SddcClients.EdgeClusters as EdgeClusters
use saltext_vmware.SddcClients.LicenseKeys as LicenseKeys
use saltext_vmware.Sddc.Tasks as Tasks

-- `isinstance(task, dict) and "id" in task`
unfoldable pub has_id : Json → Bool
has_id (obj fs) = elim (lookup fs "id") [ none ↦ false | some v ↦ true ]
has_id task = false

module _ ⦃E : Env⦄ (opts : Json) where
  unfoldable pub task_wait : Json → ℕ → ℕ → Option String → Exec Json
  task_wait task_id timeout poll_interval profile =
      Tasks.wait opts task_id profile timeout poll_interval

  unfoldable pub task_get : Json → Option String → Exec Json
  task_get task_id profile = Tasks.get_task opts task_id profile

  unfoldable pub task_retry : Json → Option String → Exec Json
  task_retry task_id profile = Tasks.retry_task opts task_id profile

  -- `tasks.wait(__opts__, task["id"], ...)`
  unfoldable pub wait_for : Json → ℕ → ℕ → Option String → Exec Json
  wait_for task timeout poll_interval profile = do
    id ← lift (item task "id")
    Tasks.wait opts id profile timeout poll_interval

  -- The client waits with its own poll interval, of 10 seconds.
  unfoldable pub wait_if : Json → ℕ → Option String → Json → Exec Json
  wait_if wait timeout profile task =
      if truthy wait && has_id task then wait_for task timeout 10 profile else pure task

  unfoldable pub validate_domain : Json → Option String → Exec Json
  validate_domain spec profile = Domain.validate opts spec profile

  unfoldable pub create_domain : Json → Json → ℕ → ℕ → Option String → Exec Json
  create_domain spec wait timeout poll_interval profile = do
    task ← Domain.create opts spec profile
    if truthy wait then wait_for task timeout poll_interval profile else pure task

  unfoldable pub update_domain : Json → Json → Json → ℕ → Option String → Exec Json
  update_domain domain_id spec wait timeout profile = do
    task ← Domain.update opts domain_id spec profile
    wait_if wait timeout profile task

  unfoldable pub delete_domain : Json → Json → ℕ → Option String → Exec Json
  delete_domain domain_id wait timeout profile = do
    task ← Domain.delete opts domain_id profile
    wait_if wait timeout profile task

  unfoldable pub list_endpoints : Json → Option String → Exec Json
  list_endpoints domain_id profile = Domain.list_endpoints opts domain_id profile

  unfoldable pub expand_cluster : Json → Json → Json → ℕ → Option String → Exec Json
  expand_cluster cluster_id host_specs wait timeout profile = do
    task ← ClusterOps.expand opts cluster_id host_specs profile
    wait_if wait timeout profile task

  unfoldable pub shrink_cluster : Json → Json → Json → Json → ℕ → Option String → Exec Json
  shrink_cluster cluster_id host_ids force wait timeout profile = do
    task ← ClusterOps.shrink opts cluster_id host_ids force profile
    wait_if wait timeout profile task

  unfoldable pub list_edge_clusters : Option String → Exec Json
  list_edge_clusters profile = EdgeClusters.list opts profile

  unfoldable pub deploy_edge_cluster : Json → Json → ℕ → Option String → Exec Json
  deploy_edge_cluster spec wait timeout profile = do
    task ← EdgeClusters.create opts spec profile
    wait_if wait timeout profile task

  unfoldable pub add_license_key : Json → Json → Json → Option String → Exec Json
  add_license_key key product_type description profile =
      LicenseKeys.add opts key product_type description profile

  unfoldable pub list_license_keys : Option String → Exec Json
  list_license_keys profile = LicenseKeys.list opts profile

  unfoldable pub licensing_info : Option String → Exec Json
  licensing_info profile = LicenseKeys.licensing_info opts profile
