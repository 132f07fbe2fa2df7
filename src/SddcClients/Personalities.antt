-- ===== src/SddcClients/Personalities.antt =====
-- clients/sddc_personalities.py.
use saltext_vmware.Base.{String, if◌then◌else◌, ◌<>◌, Option}
use saltext_vmware.Json.{Json, Fields, insert, is_none, ◌or◌, null, obj, field, end}
use saltext_vmware.Exec.{Env, Exec, show}
use saltext_vmware.Rest.{or_none}
use saltext_vmware.Sddc.Api.{api_get, api_post, api_patch, api_put, api_delete}

abbrev path : String
path = "/v1/personalities"

module _ ⦃E : Env⦄ (opts : Json) where
  unfoldable pub get : Json → Option String → Exec Json
  get personality_id profile = api_get opts (path <> "/" <> show personality_id) null profile

  unfoldable pub get_or_none : Json → Option String → Exec Json
  get_or_none personality_id profile = or_none (get personality_id profile)

  unfoldable pub create : Json → Option String → Exec Json
  create personality_spec profile = api_post opts path personality_spec profile

  unfoldable pub delete : Json → Option String → Exec Json
  delete personality_id profile = api_delete opts (path <> "/" <> show personality_id) profile

  unfoldable pub rename : Json → Json → Option String → Exec Json
  rename personality_id personality_name profile =
      api_patch opts (path <> "/" <> show personality_id)
        (obj (field "personalityName" personality_name end)) profile

  unfoldable pub upload_files : Json → Option String → Exec Json
  upload_files upload_spec profile = api_put opts (path <> "/files") upload_spec profile

  -- `params[key] = v` if `v` is not `None`
  unfoldable pub with_param : String → Json → Fields → Fields
  with_param key v fs = if is_none v then fs else insert fs key v

  unfoldable pub list : Json → Json → Option String → Exec Json
  list personality_name cluster_id profile =
      let named = with_param "personalityName" personality_name end in
      let params = obj (with_param "clusterId" cluster_id named) in
      api_get opts path (params or null) profile
