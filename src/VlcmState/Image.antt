-- ===== src/VlcmState/Image.antt =====
-- `image_configured` of states/vcf_esxi_vlcm.py.
use saltext_vmware.Base.{String, ◌<>◌, ◌&&◌, Option, none}
use saltext_vmware.Base.{if◌then◌else◌}
use saltext_vmware.Json.{Json, null, str, arr, nil, empty, ◌or◌, truthy}
use saltext_vmware.Json.{is_text, is_none}
use saltext_vmware.Json.Equal.{equal}
use saltext_vmware.Http.{exc, value_error, runtime_error, get}
use saltext_vmware.Exec.{Env, Exec, pure, lift, ◌>>=◌, show}
use saltext_vmware.Vlcm.Images.{desired_image_get, drafts_list, draft_get, draft_delete}
use saltext_vmware.PatchState.Ret.{Ret, fresh, fail, option_or, guarded}
use saltext_vmware.VlcmState.Settings.{pillar_section, task_settings}
use saltext_vmware.VlcmState.Values.{base_version, first_draft_id}
use saltext_vmware.VlcmState.Attempt.{try_or_fail}
use saltext_vmware.VlcmState.Importing.{
  ImageArgs, ImageGoal, differs, import_draft, version_change, with_draft,
}

module _ ⦃E : Env⦄ (opts : Json) (profile : Option String) where
  unfoldable pub set_image : Ret → ImageArgs → ImageGoal → Json → Json → Exec Ret
  set_image ret args goal draft_id test =
      if truthy test
      then pure (record ret {
        result = none;
        comment =
            "would set cluster " <> show goal.cluster <> " desired image to " <> show goal.desired;
        changes = version_change goal;
      })
      else (do
        settings ← lift (task_settings opts args.kwargs)
        guarded ret (do
          draft ← import_draft opts profile goal draft_id
          with_draft opts profile ret args goal settings draft))

  unfoldable pub after_draft : Ret → ImageArgs → ImageGoal → Json → Exec Ret
  after_draft ret args goal draft_id = do
    test ← lift (get opts "test" null)
    set_image ret args goal draft_id test

  unfoldable pub reuse_version : Ret → ImageArgs → ImageGoal → Json → Json → Exec Ret
  reuse_version ret args goal existing version =
      if differs goal.desired version
      then pure (
          fail ret (
            exc runtime_error (
              "existing draft "
              <> E.repr existing
              <> " is version "
              <> E.repr version
              <> ", not the requested "
              <> E.repr goal.desired)))
      else after_draft ret args goal existing

  unfoldable pub reuse_draft : Ret → ImageArgs → ImageGoal → Json → Exec Ret
  reuse_draft ret args goal existing =
      try_or_fail ret (draft_get opts profile goal.cluster existing) λ doc. do
        spec ← lift (get (doc or empty) "software_spec" null)
        version ← lift (base_version (spec or (doc or empty)))
        reuse_version ret args goal existing version

  unfoldable pub delete_unless_test : Ret → ImageArgs → ImageGoal → Json → Json → Exec Ret
  delete_unless_test ret args goal existing test =
      if truthy test
      then pure (record ret {
        result = none;
        comment =
            "would delete existing draft "
            <> E.repr existing
            <> " and import "
            <> show goal.desired;
      })
      else try_or_fail ret (draft_delete opts profile goal.cluster existing)
          (λ answer. after_draft ret args goal null)

  unfoldable pub delete_draft : Ret → ImageArgs → ImageGoal → Json → Exec Ret
  delete_draft ret args goal existing = do
    test ← lift (get opts "test" null)
    delete_unless_test ret args goal existing test

  unfoldable pub settle_draft : Ret → ImageArgs → ImageGoal → Json → Exec Ret
  settle_draft ret args goal existing =
      if is_none existing
      then after_draft ret args goal null
      else if is_text args.existing_draft_action "fail"
      then pure (
          fail ret (
            exc runtime_error
              ("cluster " <> show goal.cluster <> " already has draft " <> E.repr existing)))
      else if is_text args.existing_draft_action "reuse"
      then reuse_draft ret args goal existing
      else delete_draft ret args goal existing

  unfoldable pub image_unless_current : Ret → ImageArgs → ImageGoal → Exec Ret
  image_unless_current ret args goal =
      if truthy goal.desired && equal goal.current goal.desired
      then pure (record ret {
        comment =
            "cluster " <> show goal.cluster <> " desired image already at " <> show goal.desired;
      })
      else try_or_fail ret (drafts_list opts profile goal.cluster)
          (λ drafts. settle_draft ret args goal (first_draft_id (drafts or arr nil)))

  unfoldable pub image_for : Ret → ImageArgs → Json → Json → Exec Ret
  image_for ret args cluster spec = do
    desired ← lift (base_version spec)
    try_or_fail ret (desired_image_get opts profile cluster) λ image. do
      current ← lift (base_version image)
      image_unless_current ret args
          (record { cluster = cluster; spec = spec; current = current; desired = desired })

  unfoldable pub image_given : Ret → ImageArgs → Json → Json → Exec Ret
  image_given ret args cluster spec =
      if truthy spec
      then image_for ret args cluster spec
      else pure (
          fail ret (
            exc value_error
              "image_configured requires 'image_spec' (or pillar esxi_vlcm:image:spec)"))

  unfoldable pub image_configured : String → ImageArgs → Exec Ret
  image_configured name args = do
    cfg ← lift (pillar_section opts "image")
    spec ← lift (option_or args.image_spec cfg "spec")
    image_given (fresh name) args (args.cluster_id or str name) spec
