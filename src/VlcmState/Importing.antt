-- ===== src/VlcmState/Importing.antt =====
-- The draft of `image_configured` of states/vcf_esxi_vlcm.py: its import, its validation, its commit,
-- and the check of the image after the commit.
use saltext_vmware.Base.{String, ◌<>◌, Bool, not, ◌&&◌, Option}
use saltext_vmware.Base.{if◌then◌else◌}
use saltext_vmware.Json.{Json, null, arr, nil, obj, Fields, field, end, ◌or◌, truthy}
use saltext_vmware.Json.{is_none}
use saltext_vmware.Json.Equal.{equal}
use saltext_vmware.Http.{exc, runtime_error}
use saltext_vmware.Exec.{Env, Exec, pure, lift, ◌>>=◌, ◌>>◌, show}
use saltext_vmware.Vlcm.Images.{
  desired_image_get, drafts_list, draft_import_software_spec, draft_validate, draft_commit,
}
use saltext_vmware.Vlcm.Lifecycle.{wait_for_task}
use saltext_vmware.PatchState.Ret.{Ret, fail}
use saltext_vmware.VlcmState.Settings.{TaskSettings}
use saltext_vmware.VlcmState.Values.{base_version, first_draft_id}

pub record ImageArgs : Type 0 where
  pub cluster_id : Json
  pub image_spec : Json
  pub display_name : Json
  pub existing_draft_action : Json
  pub validate : Json
  pub commit : Json
  pub commit_message : Json
  pub kwargs : Fields

-- What the code after the checks of the arguments has at hand
pub record ImageGoal : Type 0 where
  pub cluster : Json
  pub spec : Json
  pub current : Json
  pub desired : Json

-- `desired_version and version != desired_version`
unfoldable pub differs : Json → Json → Bool
differs desired version = truthy desired && not (equal version desired)

abbrev pub version_change : ImageGoal → Json
version_change goal =
    obj (
      field "base_image_version" (obj (field "old" goal.current (field "new" goal.desired end)))
        end)

module _ ⦃E : Env⦄ (opts : Json) (profile : Option String) where
  unfoldable pub image_set : Ret → ImageGoal → Ret
  image_set ret goal = record ret {
    changes = version_change goal;
    comment = "cluster " <> show goal.cluster <> " desired image set to " <> show goal.desired;
  }

  unfoldable pub not_landed : Ret → ImageGoal → Json → Ret
  not_landed ret goal version = fail ret (
      exc runtime_error (
        "commit reported success but cluster "
        <> show goal.cluster
        <> " version is "
        <> E.repr version
        <> ", not the requested "
        <> E.repr goal.desired))

  -- The desired image is read again after the commit.
  unfoldable pub verify_image : Ret → ImageGoal → Exec Ret
  verify_image ret goal = do
    final ← desired_image_get opts profile goal.cluster
    version ← lift (base_version final)
    pure (if differs goal.desired version then not_landed ret goal version else image_set ret goal)

  unfoldable pub commit_draft : Ret → ImageArgs → ImageGoal → TaskSettings → Json → Exec Ret
  commit_draft ret args goal settings draft_id =
      if truthy args.commit
      then (do
        resp ←
            draft_commit opts profile goal.cluster draft_id
              (args.commit_message or args.display_name)
        wait_for_task opts profile resp settings.timeout settings.poll_interval
        verify_image ret goal)
      else pure (image_set ret goal)

  unfoldable pub validate_draft : ImageArgs → ImageGoal → TaskSettings → Json → Exec Json
  validate_draft args goal settings draft_id =
      if truthy args.validate
      then (do
        resp ← draft_validate opts profile goal.cluster draft_id
        wait_for_task opts profile resp settings.timeout settings.poll_interval)
      else pure null

  unfoldable pub import_draft : ImageGoal → Json → Exec Json
  import_draft goal draft_id =
      if is_none draft_id
      then (do
        draft_import_software_spec opts profile goal.cluster goal.spec
        listed ← drafts_list opts profile goal.cluster
        pure (first_draft_id (listed or arr nil)))
      else pure draft_id

  unfoldable pub with_draft : Ret → ImageArgs → ImageGoal → TaskSettings → Json → Exec Ret
  with_draft ret args goal settings draft_id =
      if is_none draft_id
      then pure (
          fail ret (
            exc runtime_error
              ("could not determine draft id after import on cluster " <> show goal.cluster)))
      else (do
        validate_draft args goal settings draft_id
        commit_draft ret args goal settings draft_id)
