-- ===== src/VlcmState/Step.antt =====
-- The lifecycle steps of states/vcf_esxi_vlcm.py, and `reported`.
use saltext_vmware.Base.{String, ◌<>◌, Option, none, if◌then◌else◌}
use saltext_vmware.Json.{Json, null, str, obj, Fields, field, end, ◌or◌, truthy}
use saltext_vmware.Http.{get}
use saltext_vmware.Exec.{Env, Exec, pure, lift, ◌>>=◌, show}
use saltext_vmware.Vlcm.Lifecycle.{
  compliance_scan, precheck, stage, remediate, wait_for_task, last_check_result,
  apply_impact_report, last_apply_result,
}
use saltext_vmware.PatchState.Ret.{Ret, fresh, guarded}
use saltext_vmware.VlcmState.Settings.{TaskSettings, task_settings}
use saltext_vmware.VlcmState.Attempt.{try_or_fail}

-- `'present' if report else 'none'`
unfoldable pub presence : Json → String
presence report = if truthy report then "present" else "none"

module _ ⦃E : Env⦄ (opts : Json) (profile : Option String) where
  -- The action, and its task at the end
  unfoldable pub run_action : Exec Json → TaskSettings → Exec Json
  run_action action settings = do
    resp ← action
    wait_for_task opts profile resp settings.timeout settings.poll_interval

  -- What the state returns once the task is done
  unfoldable pub step_done : Ret → String → String → Json → Exec Ret
  step_done ret slug comment task = do
    status ← lift (get task "status" null)
    pure (record ret { changes = obj (field slug status end); comment = comment })

  unfoldable pub step_unless_test :
      Ret → Json → String → String → Exec Json → Fields → Json → Exec Ret
  step_unless_test ret cluster slug label action kwargs test =
      if truthy test
      then pure
          (record ret { result = none; comment = "would " <> label <> " cluster " <> show cluster })
      else (do
        settings ← lift (task_settings opts kwargs)
        try_or_fail ret (run_action action settings)
            (step_done ret slug ("cluster " <> show cluster <> " " <> label <> " complete")))

  unfoldable pub lifecycle_step :
      String → Json → String → String → (Json → Exec Json) → Fields → Exec Ret
  lifecycle_step name cluster_id slug label action kwargs = do
    test ← lift (get opts "test" null)
    step_unless_test (fresh name) (cluster_id or str name) slug label
        (action (cluster_id or str name)) kwargs test

  unfoldable pub compliance_checked : String → Json → Json → Json → Fields → Exec Ret
  compliance_checked name cluster_id commit hosts =
      lifecycle_step name cluster_id "compliance_scan" "compliance scan"
        (λ cluster. compliance_scan opts profile cluster commit hosts)

  unfoldable pub prechecked : String → Json → Json → Fields → Exec Ret
  prechecked name cluster_id commit =
      lifecycle_step name cluster_id "precheck" "precheck"
        (λ cluster. precheck opts profile cluster commit)

  unfoldable pub staged : String → Json → Json → Json → Fields → Exec Ret
  staged name cluster_id commit hosts =
      lifecycle_step name cluster_id "stage" "stage"
        (λ cluster. stage opts profile cluster commit hosts)

  unfoldable pub remediate_unless_test : Ret → Json → Json → Fields → Json → Exec Ret
  remediate_unless_test ret cluster accept_eula kwargs test =
      if truthy test
      then pure (record ret { result = none; comment = "would remediate cluster " <> show cluster })
      else (do
        settings ← lift (task_settings opts kwargs)
        try_or_fail ret (run_action (remediate opts profile cluster accept_eula) settings)
            (step_done ret "remediate" ("cluster " <> show cluster <> " remediated")))

  unfoldable pub remediated : String → Json → Json → Fields → Exec Ret
  remediated name cluster_id accept_eula kwargs = do
    test ← lift (get opts "test" null)
    remediate_unless_test (fresh name) (cluster_id or str name) accept_eula kwargs test

  unfoldable pub report : Ret → Json → Exec Ret
  report ret cluster = do
    last_check ← last_check_result opts profile cluster
    apply_impact ← apply_impact_report opts profile cluster
    last_apply ← last_apply_result opts profile cluster
    pure (record ret {
      comment =
          "cluster "
          <> show cluster
          <> ": last_check="
          <> presence last_check
          <> ", apply_impact="
          <> presence apply_impact
          <> ", last_apply="
          <> presence last_apply;
    })

  unfoldable pub reported : String → Json → Exec Ret
  reported name cluster_id = guarded (fresh name) (report (fresh name) (cluster_id or str name))
