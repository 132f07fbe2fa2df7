-- ===== src/SddcClients/ClusterOps.antt =====
-- clients/sddc_cluster_ops.py.
use saltext_vmware.Base.{String, true, List, [], ◌∷◌, ◌<>◌, Option}
use saltext_vmware.Json.{Json, Items, nil, cons, arr, obj, field, end, bool, truthy}
use saltext_vmware.Exec.{Env, Exec, lift, ◌>>=◌, show}
use saltext_vmware.Rest.{as_list}
use saltext_vmware.Sddc.Errors.{iterate}
use saltext_vmware.Sddc.Api.{api_post, api_patch, api_delete}

abbrev path : String
path = "/v1/clusters"

module _ ⦃E : Env⦄ (opts : Json) where
  unfoldable pub validate : Json → Option String → Exec Json
  validate spec profile = api_post opts (path <> "/validations") spec profile

  unfoldable pub create : Json → Option String → Exec Json
  create spec profile = api_post opts path spec profile

  unfoldable pub update : Json → Json → Option String → Exec Json
  update cluster_id spec profile = api_patch opts (path <> "/" <> show cluster_id) spec profile

  unfoldable pub delete : Json → Option String → Exec Json
  delete cluster_id profile = api_delete opts (path <> "/" <> show cluster_id) profile

  unfoldable pub expand : Json → Json → Option String → Exec Json
  expand cluster_id host_specs profile = do
    hosts ← lift (as_list host_specs)
    update cluster_id (obj (field "clusterExpansionSpec" (obj (field "hostSpecs" hosts end)) end))
        profile

  -- `[{"id": h} for h in host_ids]`
  unfoldable pub with_ids : List Json → Items
  with_ids [] = nil
  with_ids (h ∷ hs) = cons (obj (field "id" h end)) (with_ids hs)

  unfoldable pub shrink : Json → Json → Json → Option String → Exec Json
  shrink cluster_id host_ids force profile = do
    hosts ← lift (iterate host_ids)
    update cluster_id
        (obj (
          field "clusterCompactionSpec"
            (obj (field "hosts" (arr (with_ids hosts)) (field "force" (bool (truthy force)) end)))
            end))
        profile

  unfoldable pub mark_for_deletion : Json → Option String → Exec Json
  mark_for_deletion cluster_id profile =
      update cluster_id (obj (field "markForDeletion" (bool true) end)) profile
