-- ===== src/Vlcm/Images.antt =====
-- Desired images, drafts and the apply policy of clients/esxi_vlcm.py.
use saltext_vmware.Base.{String, ◌<>◌, Option, if◌then◌else◌}
use saltext_vmware.Json.{Json, null, str, obj, field, end, is_none}
use saltext_vmware.Exec.{Env, Exec, show}
use saltext_vmware.Vcenter.Api.{api_get, api_post, api_put, api_delete}

module _ ⦃E : Env⦄ where
  -- `_cluster_path`
  unfoldable pub cluster_path : Json → String → String
  cluster_path cluster suffix = "/api/esx/settings/clusters/" <> show cluster <> suffix

module _ ⦃E : Env⦄ (opts : Json) (profile : Option String) (cluster : Json) where
  unfoldable pub desired_image_get : Exec Json
  desired_image_get = api_get opts (cluster_path cluster "/software") null profile null

  unfoldable pub base_image_get : Exec Json
  base_image_get = api_get opts (cluster_path cluster "/software/base-image") null profile null

  unfoldable pub drafts_list : Exec Json
  drafts_list = api_get opts (cluster_path cluster "/software/drafts") null profile null

  unfoldable pub draft_path : Json → String
  draft_path draft_id = cluster_path cluster ("/software/drafts/" <> show draft_id)

  unfoldable pub draft_get : Json → Exec Json
  draft_get draft_id = api_get opts (draft_path draft_id) null profile null

  unfoldable pub draft_delete : Json → Exec Json
  draft_delete draft_id = api_delete opts (draft_path draft_id) null profile null

  unfoldable pub draft_import_software_spec : Json → Exec Json
  draft_import_software_spec image_spec =
      api_post opts (cluster_path cluster "/software/drafts")
        (obj (
          field "source_type" (str "JSON_STRING")
            (field "software_spec" (str (E.dumps image_spec)) end)))
        (obj (field "action" (str "import-software-spec") end)) profile null

  unfoldable pub draft_validate : Json → Exec Json
  draft_validate draft_id =
      api_post opts (draft_path draft_id) null
        (obj (field "action" (str "validate") (field "vmw-task" (str "true") end))) profile null

  unfoldable pub draft_commit : Json → Json → Exec Json
  draft_commit draft_id message =
      api_post opts (draft_path draft_id)
        (obj (field "message" (if is_none message then str "" else message) end))
        (obj (field "action" (str "commit") (field "vmw-task" (str "true") end))) profile null

  unfoldable pub apply_policy_get : Exec Json
  apply_policy_get = api_get opts (cluster_path cluster "/policies/apply") null profile null

  unfoldable pub apply_policy_set : Json → Exec Json
  apply_policy_set policy_spec =
      api_put opts (cluster_path cluster "/policies/apply") policy_spec profile null
