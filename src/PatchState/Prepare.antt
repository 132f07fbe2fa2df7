-- ===== src/PatchState/Prepare.antt =====
-- `update_prepared` and `_precheck_when_allowed` of states/vcf_vc_patch.py.
use saltext_vmware.Base.{ℕ, zero, suc, ◌+◌, String, ◌<>◌, true, false, not, ◌&&◌, Option}
use saltext_vmware.Base.{none, some, min, ltb, if◌then◌else◌}
use saltext_vmware.Json.{Json, null, bool, num, str, obj, Fields, field, end, insert, truthy}
use saltext_vmware.Http.{Exc, exc, runtime_error, get}
use saltext_vmware.Exec.{Env, Exec, pure, raise, lift, spent, catch, ◌>>=◌, ◌>>◌, now, show, to_int}
use saltext_vmware.VcPatch.Errors.{is_stage_timeout_error, is_staging_in_progress_error}
use saltext_vmware.VcPatch.Updates.{set_update_policy, get_staged_update, stage, precheck}
use saltext_vmware.VcPatch.Matching.{staged_matches}
use saltext_vmware.VcPatch.Resolve.{resolve_update_version}
use saltext_vmware.VcPatch.Polling.{wait_for_staged_update, monitor_stage}
use saltext_vmware.PatchState.Ret.{Ret, fresh, patch_config, option, option_or, guarded}
use saltext_vmware.PatchState.Redact.{redact}

pub record PrepareArgs : Type 0 where
  pub repository_url : Json
  pub version : Json
  pub component : Json
  pub monitor : Json
  pub stage_timeout_seconds : Json
  pub poll_interval_seconds : Json
  pub max_transient_errors : Json
  pub force_stage : Json
  pub run_precheck : Json

pub record PrepareSettings : Type 0 where
  pub repository_url : Json
  pub version : Json
  pub component : Json
  pub monitor : Json
  pub stage_timeout : ℕ
  pub poll_interval : ℕ
  pub max_transient : ℕ
  pub force_stage : Json
  pub run_precheck : Json

module _ ⦃E : Env⦄ where
  unfoldable pub prepare_settings : Json → PrepareArgs → Exec PrepareSettings
  prepare_settings cfg args = do
    repository_url ← lift (option_or args.repository_url cfg "repository_url")
    version ← lift (option args.version cfg "version" null)
    component ← lift (option args.component cfg "component" null)
    monitor ← lift (option args.monitor cfg "monitor" (bool true))
    stage_seconds ← lift (option args.stage_timeout_seconds cfg "stage_timeout_seconds" (num 3600))
    stage_timeout ← lift (to_int stage_seconds)
    poll_seconds ← lift (option args.poll_interval_seconds cfg "poll_interval_seconds" (num 50))
    poll_interval ← lift (to_int poll_seconds)
    max_errors ← lift (option args.max_transient_errors cfg "max_transient_errors" (num 10))
    max_transient ← lift (to_int max_errors)
    force_stage ← lift (option args.force_stage cfg "force_stage" (bool false))
    run_precheck ← lift (option args.run_precheck cfg "run_precheck" (bool true))
    pure (record {
      repository_url = repository_url;
      version = version;
      component = component;
      monitor = monitor;
      stage_timeout = stage_timeout;
      poll_interval = poll_interval;
      max_transient = max_transient;
      force_stage = force_stage;
      run_precheck = run_precheck;
    })

module _ ⦃E : Env⦄ (opts : Json) (profile : Option String) where
  unfoldable pub precheck_late : Exc → ℕ → ℕ → Exec (Option Json) → Exec (Option Json)
  precheck_late e deadline t again =
      if ltb deadline t
      then raise (
          exc runtime_error
            ("Timed out waiting to run precheck after staging. Last error: " <> e.message))
      else again

  -- The handler of the loop: `none` asks for another round.
  unfoldable pub precheck_refused : Json → ℕ → ℕ → ℕ → Exc → Exec (Option Json)
  precheck_refused resolved poll_interval timeout deadline e =
      if is_staging_in_progress_error e
      then (do
        monitor_stage opts profile resolved (min 10 poll_interval) (min 600 timeout) 10
        t ← now
        precheck_late e deadline t (pure none))
      else raise e

  unfoldable pub precheck_again : Exec Json → Option Json → Exec Json
  precheck_again again none = again
  precheck_again again (some report) = pure report

  unfoldable pub precheck_loop : ℕ → Json → Json → ℕ → ℕ → ℕ → Exec Json
  precheck_loop zero resolved component poll_interval timeout deadline = spent
  precheck_loop (suc fuel) resolved component poll_interval timeout deadline = do
    found ←
        catch (do report ← precheck opts profile resolved component; pure (some report))
          (precheck_refused resolved poll_interval timeout deadline)
    precheck_again (precheck_loop fuel resolved component poll_interval timeout deadline) found

  -- The loop does not sleep: `timeout + 2` rounds are enough where a request takes a unit of time.
  unfoldable pub precheck_when_allowed : Json → Json → ℕ → ℕ → Exec Json
  precheck_when_allowed resolved component poll_interval timeout = do
    start ← now
    precheck_loop (timeout + 2) resolved component poll_interval timeout (start + timeout)

  -- `data["repository_policy"]`, if there is a repository
  unfoldable pub update_policy : Json → Json → Exec Fields
  update_policy test url =
      if truthy url
      then (if truthy test
          then pure (
              field "repository_policy"
                (obj (field "would_update" (bool true) (field "repository_url" url end))) end)
          else (do
            resp ←
                set_update_policy opts profile url (bool false) (bool true) null (str "") (str "")
            pure (field "repository_policy" (redact resp) end)))
      else pure end

  unfoldable pub stage_or_wait : Json → Json → ℕ → Exec Json
  stage_or_wait resolved component poll_interval =
      catch (stage opts profile resolved component) λ e.
        if is_stage_timeout_error e
        then wait_for_staged_update opts profile resolved (min 10 poll_interval) 600
        else raise e

  unfoldable pub monitor_if : PrepareSettings → Json → Fields → Exec Fields
  monitor_if s resolved d =
      if truthy s.monitor
      then (do
        done ← monitor_stage opts profile resolved s.poll_interval s.stage_timeout s.max_transient
        pure (insert d "monitor_stage" done))
      else pure d

  unfoldable pub precheck_if : PrepareSettings → Json → Fields → Exec Fields
  precheck_if s resolved d =
      if truthy s.run_precheck
      then (do
        report ← precheck_when_allowed resolved s.component s.poll_interval s.stage_timeout
        pure (insert d "precheck" report))
      else pure d

  unfoldable pub stage_update : Ret → PrepareSettings → Json → Fields → Exec Ret
  stage_update ret s resolved d = do
    answer ← stage_or_wait resolved s.component s.poll_interval
    d' ← monitor_if s resolved (insert d "stage" answer)
    d'' ← precheck_if s resolved d'
    pure (record ret {
      changes = obj d'';
      comment = "VCSA update prepared for version " <> show resolved;
    })

  unfoldable pub stage_unless_done : Ret → PrepareSettings → Json → Fields → Json → Json → Exec Ret
  stage_unless_done ret s test d resolved staged =
      if staged_matches staged resolved && not (truthy s.force_stage)
      then pure (record ret { comment = "VCSA update " <> show resolved <> " is already staged" })
      else if truthy test
      then pure
          (record ret { result = none; comment = "would stage VCSA update " <> show resolved })
      else stage_update ret s resolved d

  -- The body of the `try`
  unfoldable pub prepare : Ret → PrepareSettings → Json → Exec Ret
  prepare ret s test = do
    d ← update_policy test s.repository_url
    r ← resolve_update_version opts profile s.repository_url s.version
    staged ← catch (get_staged_update opts profile) (λ e. pure null)
    stage_unless_done ret s test
        (insert (insert d "resolved_version" r.version) "pending_update" r.pending_update) r.version
        staged

  unfoldable pub update_prepared : String → PrepareArgs → Exec Ret
  update_prepared name args = do
    cfg ← lift (patch_config opts)
    s ← prepare_settings cfg args
    guarded (fresh name) (do test ← lift (get opts "test" null); prepare (fresh name) s test)
