-- ===== src/SddcClients/EdgeClusters.antt =====
-- clients/sddc_edge_clusters.py.
use saltext_vmware.Base.{String, ◌<>◌, Option}
use saltext_vmware.Json.{Json, null}
use saltext_vmware.Exec.{Env, Exec, show}
use saltext_vmware.Rest.{or_none}
use saltext_vmware.Sddc.Api.{api_get, api_post, api_patch, api_delete}

abbrev path : String
path = "/v1/edge-clusters"

module _ ⦃E : Env⦄ (opts : Json) where
  unfoldable pub list : Option String → Exec Json
  list profile = api_get opts path null profile

  unfoldable pub get : Json → Option String → Exec Json
  get cluster_id profile = api_get opts (path <> "/" <> show cluster_id) null profile

  unfoldable pub get_or_none : Json → Option String → Exec Json
  get_or_none cluster_id profile = or_none (get cluster_id profile)

  unfoldable pub validate : Json → Option String → Exec Json
  validate spec profile = api_post opts "/v1/edge-cluster-validations" spec profile

  unfoldable pub create : Json → Option String → Exec Json
  create spec profile = api_post opts path spec profile

  unfoldable pub expand : Json → Json → Option String → Exec Json
  expand cluster_id spec profile = api_patch opts (path <> "/" <> show cluster_id) spec profile

  unfoldable pub delete : Json → Option String → Exec Json
  delete cluster_id profile = api_delete opts (path <> "/" <> show cluster_id) profile
