-- ===== src/BringupState/Complete.antt =====
-- `complete` of states/vcf_installer_bringup.py.
use saltext_vmware.Base.{ℕ, String, ◌<>◌, Bool, true, false, not, Option, none, some}
use saltext_vmware.Base.{if◌then◌else◌}
use saltext_vmware.Json.{Json, null, obj, end, field, truthy}
use saltext_vmware.Http.{get}
use saltext_vmware.Exec.{Env, Exec, pure, lift, ◌>>=◌, show}
use saltext_vmware.PatchState.Ret.{Ret, fresh}
use saltext_vmware.Installer.Bringup.{submit, wait_bringup, is_busy, is_complete}
use saltext_vmware.BringupState.Steps.{Waited, completed, gave_up, await, find_active, validated}

-- The arguments of the state
pub record Goal : Type 0 where
  pub name : String
  pub spec : Json
  pub wait : Bool
  pub timeout : ℕ
  pub validate_first : Bool
  pub profile : Option String

unfoldable pub sddc_changes : Json → Json → Json
sddc_changes sddc_id status = obj (field "sddc_id" sddc_id (field "status" status end))

module _ ⦃E : Env⦄ (opts : Json) (goal : Goal) where
  unfoldable pub after_bringup : Ret → Json → String → Waited → Exec Ret
  after_bringup ret sddc_id comment (gave_up failed) = pure failed
  after_bringup ret sddc_id comment (completed final) = do
    status ← lift (get final "status" null)
    pure (record ret { changes = sddc_changes sddc_id status; comment = comment })

  unfoldable pub await_bringup : Ret → Json → String → Exec Ret
  await_bringup ret sddc_id comment = do
    waited ←
        await ret ("bringup " <> show sddc_id)
          (wait_bringup opts sddc_id goal.profile goal.timeout 60)
    after_bringup ret sddc_id comment waited

  unfoldable pub join_running : Json → Exec Ret
  join_running sddc_id = do
    test ← lift (get opts "test" null)
    if truthy test
        then pure (record (fresh goal.name) {
          result = none;
          comment = "bringup " <> show sddc_id <> " in progress; would wait";
        })
        else if not goal.wait
        then pure
            (record (fresh goal.name) { comment = "bringup " <> show sddc_id <> " in progress" })
        else await_bringup (fresh goal.name) sddc_id "bringup completed"

  unfoldable pub reuse : Json → Exec Ret
  reuse existing = do
    state ← lift (get existing "status" null)
    sddc_id ← lift (get existing "id" null)
    if is_complete state
        then pure (record (fresh goal.name) {
          comment = "bringup " <> show sddc_id <> " already complete";
        })
        else if is_busy state
        then join_running sddc_id
        else pure (record (fresh goal.name) {
          result = some false;
          comment =
              "prior bringup "
              <> show sddc_id
              <> " ended "
              <> E.repr state
              <> "; manual retry required";
        })

  unfoldable pub submit_new : Exec Ret
  submit_new = do
    submitted ← submit opts goal.spec goal.profile
    sddc_id ← lift (get submitted "id" null)
    let ret : Ret = record (fresh goal.name) { changes = obj (field "sddc_id" sddc_id end) } in
        if not goal.wait
        then pure (record ret { comment = "bringup " <> show sddc_id <> " submitted" })
        else await_bringup ret sddc_id ("bringup " <> show sddc_id <> " completed")

  -- `v_result.get("result")` is true
  unfoldable pub is_valid : Ret → Bool
  is_valid checked = elim checked.result [ some true ↦ true | _ ↦ false ]

  unfoldable pub submit_if_valid : Ret → Exec Ret
  submit_if_valid checked = if not (is_valid checked) then pure checked else submit_new

  unfoldable pub validate_and_submit : Exec Ret
  validate_and_submit =
      if goal.validate_first
      then (do
        checked ← validated opts (goal.name <> "/validate") goal.spec true 1800 goal.profile
        submit_if_valid checked)
      else submit_new

  unfoldable pub start_new : Exec Ret
  start_new = do
    test ← lift (get opts "test" null)
    if truthy test
        then pure (record (fresh goal.name) {
          result = none;
          comment = "would validate and submit bringup";
        })
        else validate_and_submit

  unfoldable pub reuse_or_start : Option Json → Exec Ret
  reuse_or_start none = start_new
  reuse_or_start (some existing) = reuse existing

  unfoldable pub complete : Exec Ret
  complete = do existing ← find_active opts goal.profile; reuse_or_start existing
