-- ===== src/Tests/States.antt =====
-- states/vcf_vc_patch.py over the scripted machine.
use saltext_vmware.Base.{◌≡◌, ◌≢◌, refl, ap, true, false, none, some}
use saltext_vmware.Base.{[], ◌∷◌, All}
use saltext_vmware.Json.{Json, null, bool, num, str, empty}
use saltext_vmware.Http.{exc, runtime_error, Result, ok, err}
use saltext_vmware.Exec.{World, to_int}
use saltext_vmware.Vcenter.Api.{api_post, api_put}
use saltext_vmware.Vcenter.Reading.{OnlyReads}
use saltext_vmware.VcPatch.Errors.{is_stage_timeout_error, is_staging_in_progress_error}
use saltext_vmware.VcPatch.Updates.{act, install, stage, precheck, set_update_policy}
use saltext_vmware.PatchState.Ret.{fail, guarded, patch_config, option, option_or}
use saltext_vmware.PatchState.Redact.{
  is_sensitive, redact, redact_entry, user_data_or, redact_user_data, redact_user_data_entry,
}
use saltext_vmware.PatchState.Repository.{
  PolicyArgs, put_policy, configure, configure_unless_test, configure_url, repository_configured,
}
use saltext_vmware.PatchState.Prepare.{
  PrepareArgs, PrepareSettings, prepare_settings, update_policy, stage_or_wait, monitor_if,
  precheck_if, stage_update, stage_unless_done, prepare, update_prepared, precheck_late,
  precheck_refused, precheck_again, precheck_loop, precheck_when_allowed,
}
use saltext_vmware.PatchState.Install.{
  InstallArgs, InstalledArgs, InstallSettings, install_settings, monitor_install_if, install_update,
  install_unless_test, install_resolved, install_with, update_installed, choose_phase, installed,
  install_args, prepare_args,
}
use saltext_vmware.PatchState.DryRun.{
  update_prepared_dry, update_installed_dry, repository_configured_dry,
}
use saltext_vmware.PatchState.Staging.{NotStage, installed_never_stages}
use saltext_vmware.PatchState.Failing.{update_prepared_caught, update_installed_no_password}
use saltext_vmware.Tests.Machine.{
  Script, machine, success, failure, connected, options, test_options,
}
use saltext_vmware.Tests.Patching.{patching, status}

-- Opens what a run of a state needs.
unfoldable states : Json → Result Json
unfolding patching api_post api_put to_int is_stage_timeout_error is_staging_in_progress_error act
    install stage precheck set_update_policy fail guarded patch_config option option_or is_sensitive
    redact redact_entry user_data_or redact_user_data redact_user_data_entry put_policy configure
    configure_unless_test configure_url repository_configured prepare_settings update_policy
    stage_or_wait monitor_if precheck_if stage_update stage_unless_done prepare update_prepared
    precheck_late precheck_refused precheck_again precheck_loop precheck_when_allowed
    install_settings monitor_install_if install_update install_unless_test install_resolved
    install_with update_installed choose_phase installed install_args prepare_args
states opts = patch_config opts

abbrev prepare_defaults : PrepareArgs
prepare_defaults = record {
  repository_url = null;
  version = str "9.0.1";
  component = null;
  monitor = null;
  stage_timeout_seconds = num 60;
  poll_interval_seconds = num 5;
  max_transient_errors = null;
  force_stage = null;
  run_precheck = null;
}

abbrev install_defaults : InstallArgs
install_defaults = record {
  version = str "9.0.1";
  sso_password = str "pw";
  component = null;
  monitor = null;
  install_timeout_seconds = num 60;
  poll_interval_seconds = num 5;
  max_transient_errors = num 3;
}

abbrev installed_defaults : InstalledArgs
installed_defaults = record {
  repository_url = null;
  version = str "9.0.1";
  sso_password = str "pw";
  component = null;
  monitor = null;
  stage_timeout_seconds = num 60;
  poll_interval_seconds = num 5;
  max_transient_errors = num 3;
  force_stage = null;
  run_precheck = null;
  install_timeout_seconds = num 60;
}

-- The version is pending, and nothing is staged.
abbrev answers : World Script
answers = connected 0 [] (success (status "PENDING") ∷ failure 404 ∷ [])

update_prepared_dry_example :
    OnlyReads (update_prepared test_options none "vcsa" prepare_defaults answers).1.sent
update_prepared_dry_example =
    update_prepared_dry test_options none (bool true) refl refl "vcsa" prepare_defaults answers tt

update_installed_dry_example :
    OnlyReads (update_installed test_options none "vcsa" install_defaults answers).1.sent
update_installed_dry_example =
    update_installed_dry test_options none (bool true) refl refl "vcsa" install_defaults answers tt

abbrev policy_args : PolicyArgs
policy_args = record {
  repository_url = str "https://depot";
  auto_stage = null;
  certificate_check = null;
  check_schedule = null;
  repo_username = null;
  repo_password = null;
}

repository_configured_dry_run :
    repository_configured test_options none "depot" policy_args answers ≡ (
      ok (record {
        name = "depot";
        changes = empty;
        result = none;
        comment = "would configure update repository https://depot";
      }),
      answers,
    )
unfolding states
repository_configured_dry_run =
    repository_configured_dry test_options none (bool true) refl refl "depot" policy_args empty
      (str "https://depot") answers refl refl refl

installed_never_stages_example :
    All NotStage (installed options none "vcsa" installed_defaults answers).1.sent
unfolding states
installed_never_stages_example =
    installed_never_stages options none "vcsa" installed_defaults null answers refl refl tt

abbrev prepare_chosen : PrepareSettings
prepare_chosen = record {
  repository_url = null;
  version = str "9.0.1";
  component = null;
  monitor = bool true;
  stage_timeout = 60;
  poll_interval = 5;
  max_transient = 10;
  force_stage = bool false;
  run_precheck = bool true;
}

abbrev install_chosen : InstallSettings
install_chosen = record {
  version = str "9.0.1";
  sso_password = str "pw";
  component = null;
  monitor = bool true;
  install_timeout = 60;
  poll_interval = 5;
  max_transient = 3;
}

update_prepared_caught_run :
    (update_prepared options none "vcsa" prepare_defaults (connected 0 [] [])).0
    ≢ err (exc runtime_error "connection refused")
unfolding states
update_prepared_caught_run =
    update_prepared_caught options none "vcsa" prepare_defaults empty prepare_chosen
      (connected 0 [] []) (exc runtime_error "connection refused") refl refl

update_installed_no_password_run :
    (update_installed options none "vcsa"
      (record install_defaults { sso_password = null })
      answers).0
    ≡ ok (record {
      name = "vcsa";
      changes = empty;
      result = some false;
      comment = "update_installed requires 'sso_password'";
    })
unfolding states
update_installed_no_password_run =
    ap (λ p. p.0)
      (update_installed_no_password options none "vcsa"
        (record install_defaults { sso_password = null }) empty
        (record install_chosen { sso_password = null }) answers refl refl refl)

abbrev up_to_date : World Script
up_to_date =
    connected 0 [] (success (status "PENDING") ∷ success empty ∷ success (status "UP_TO_DATE") ∷ [])
