-- ===== src/Vlcm/Depots.antt =====
-- The depots of clients/esxi_vlcm.py.
use saltext_vmware.Base.{String, ◌<>◌, true, Option, if◌then◌else◌}
use saltext_vmware.Json.{Json, null, bool, str, obj, Fields, field, end, is_none}
use saltext_vmware.Exec.{Env, Exec, pure, raise, catch_http, show}
use saltext_vmware.Vcenter.Api.{api_get, api_post, api_patch, api_delete}
use saltext_vmware.Vcenter.Task.{is_not_found}

abbrev pub depots : String
depots = "/api/esx/settings/depots"

-- `{k: v for k, v in body.items() if v is not None}`
unfoldable pub compact : Fields → Fields
compact end = end
compact (field k v fs) = let rest = compact fs in if is_none v then rest else field k v rest

-- `{"vmw-task": "true"}`
abbrev pub as_task : Json
as_task = obj (field "vmw-task" (str "true") end)

abbrev pub skipped : Json
skipped = obj (field "skipped" (bool true) end)

module _ ⦃E : Env⦄ (opts : Json) (profile : Option String) where
  unfoldable pub online_depot_list : Exec Json
  online_depot_list = api_get opts (depots <> "/online") null profile null

  unfoldable pub online_depot_create : Fields → Exec Json
  online_depot_create body =
      api_post opts (depots <> "/online") (obj (compact body)) null profile null

  unfoldable pub online_depot_update : Json → Fields → Exec Json
  online_depot_update depot_id body =
      api_patch opts (depots <> "/online/" <> show depot_id) (obj (compact body)) profile null

  unfoldable pub offline_depot_list : Exec Json
  offline_depot_list = api_get opts (depots <> "/offline") null profile null

  unfoldable pub offline_depot_get : Json → Exec Json
  offline_depot_get depot_id =
      api_get opts (depots <> "/offline/" <> show depot_id) null profile null

  unfoldable pub offline_depot_create : Fields → Exec Json
  offline_depot_create body =
      api_post opts (depots <> "/offline") (obj (compact body)) as_task profile null

  unfoldable pub offline_depot_delete : Json → Exec Json
  offline_depot_delete depot_id =
      api_delete opts (depots <> "/offline/" <> show depot_id) as_task profile null

  unfoldable pub depot_sync : Exec Json
  depot_sync =
      catch_http
        (api_post opts depots null
          (obj (field "action" (str "sync") (field "vmw-task" (str "true") end))) profile null)
        λ e. if is_not_found e then pure skipped else raise e
