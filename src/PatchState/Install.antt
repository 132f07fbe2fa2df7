-- ===== src/PatchState/Install.antt =====
-- `update_installed` and `installed` of states/vcf_vc_patch.py.
use saltext_vmware.Base.{ℕ, String, ◌<>◌, true, Option, none, if◌then◌else◌}
use saltext_vmware.Json.{Json, null, bool, num, obj, Fields, field, end, insert, truthy}
use saltext_vmware.Http.{exc, value_error, get}
use saltext_vmware.Exec.{Env, Exec, pure, lift, ◌>>=◌, show, to_int}
use saltext_vmware.VcPatch.Updates.{install}
use saltext_vmware.VcPatch.Resolve.{resolve_update_version}
use saltext_vmware.VcPatch.Polling.{monitor_install}
use saltext_vmware.PatchState.Ret.{Ret, fresh, fail, patch_config, option, guarded}
use saltext_vmware.PatchState.Redact.{redact}
use saltext_vmware.PatchState.Prepare.{PrepareArgs, update_prepared}

pub record InstallArgs : Type 0 where
  pub version : Json
  pub sso_password : Json
  pub component : Json
  pub monitor : Json
  pub install_timeout_seconds : Json
  pub poll_interval_seconds : Json
  pub max_transient_errors : Json

pub record InstallSettings : Type 0 where
  pub version : Json
  pub sso_password : Json
  pub component : Json
  pub monitor : Json
  pub install_timeout : ℕ
  pub poll_interval : ℕ
  pub max_transient : ℕ

-- The union of both, as `installed` takes it
pub record InstalledArgs : Type 0 where
  pub repository_url : Json
  pub version : Json
  pub sso_password : Json
  pub component : Json
  pub monitor : Json
  pub stage_timeout_seconds : Json
  pub poll_interval_seconds : Json
  pub max_transient_errors : Json
  pub force_stage : Json
  pub run_precheck : Json
  pub install_timeout_seconds : Json

unfoldable pub prepare_args : InstalledArgs → PrepareArgs
prepare_args a = record {
  repository_url = a.repository_url;
  version = a.version;
  component = a.component;
  monitor = a.monitor;
  stage_timeout_seconds = a.stage_timeout_seconds;
  poll_interval_seconds = a.poll_interval_seconds;
  max_transient_errors = a.max_transient_errors;
  force_stage = a.force_stage;
  run_precheck = a.run_precheck;
}

unfoldable pub install_args : InstalledArgs → InstallArgs
install_args a = record {
  version = a.version;
  sso_password = a.sso_password;
  component = a.component;
  monitor = a.monitor;
  install_timeout_seconds = a.install_timeout_seconds;
  poll_interval_seconds = a.poll_interval_seconds;
  max_transient_errors = a.max_transient_errors;
}

module _ ⦃E : Env⦄ where
  unfoldable pub install_settings : Json → InstallArgs → Exec InstallSettings
  install_settings cfg args = do
    version ← lift (option args.version cfg "version" null)
    sso_password ← lift (option args.sso_password cfg "sso_password" null)
    component ← lift (option args.component cfg "component" null)
    monitor ← lift (option args.monitor cfg "monitor" (bool true))
    seconds ← lift (option args.install_timeout_seconds cfg "install_timeout_seconds" (num 7200))
    install_timeout ← lift (to_int seconds)
    poll_seconds ← lift (option args.poll_interval_seconds cfg "poll_interval_seconds" (num 120))
    poll_interval ← lift (to_int poll_seconds)
    max_errors ← lift (option args.max_transient_errors cfg "max_transient_errors" (num 10))
    max_transient ← lift (to_int max_errors)
    pure (record {
      version = version;
      sso_password = sso_password;
      component = component;
      monitor = monitor;
      install_timeout = install_timeout;
      poll_interval = poll_interval;
      max_transient = max_transient;
    })

module _ ⦃E : Env⦄ (opts : Json) (profile : Option String) where
  unfoldable pub monitor_install_if : InstallSettings → Fields → Exec Fields
  monitor_install_if s d =
      if truthy s.monitor
      then (do
        done ← monitor_install opts profile s.poll_interval s.install_timeout s.max_transient
        pure (insert d "monitor_install" done))
      else pure d

  unfoldable pub install_update : Ret → InstallSettings → Json → Exec Ret
  install_update ret s resolved = do
    answer ← install opts profile resolved s.sso_password s.component
    d ← monitor_install_if s (field "install" (redact answer) end)
    pure (record ret {
      changes = obj d;
      comment = "VCSA update install submitted for version " <> show resolved;
    })

  unfoldable pub install_unless_test : Ret → InstallSettings → Json → Json → Exec Ret
  install_unless_test ret s resolved test =
      if truthy test
      then pure
          (record ret { result = none; comment = "would install VCSA update " <> show resolved })
      else install_update ret s resolved

  unfoldable pub install_resolved : Ret → InstallSettings → Exec Ret
  install_resolved ret s = do
    r ← resolve_update_version opts profile null s.version
    test ← lift (get opts "test" null)
    install_unless_test ret s r.version test

  unfoldable pub install_with : Ret → InstallSettings → Exec Ret
  install_with ret s =
      if truthy s.sso_password
      then guarded ret (install_resolved ret s)
      else pure (fail ret (exc value_error "update_installed requires 'sso_password'"))

  unfoldable pub update_installed : String → InstallArgs → Exec Ret
  update_installed name args = do
    cfg ← lift (patch_config opts)
    s ← install_settings cfg args
    install_with (fresh name) s

  unfoldable pub choose_phase : String → InstalledArgs → Json → Exec Ret
  choose_phase name args test =
      if truthy test
      then update_prepared opts profile name (prepare_args args)
      else update_installed name (install_args args)

  unfoldable pub installed : String → InstalledArgs → Exec Ret
  installed name args = do test ← lift (get opts "test" null); choose_phase name args test
